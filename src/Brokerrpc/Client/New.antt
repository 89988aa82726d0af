-- ===== src/Brokerrpc/Client/New.antt =====
-- The construction of a client by NewWithOptions of internal/brokerrpc/client.go.
use ocu_rclone_filestore.Base.{
  ℕ, Text, codes, Bool, true, false, not, ◌≡◌, ◌≢◌, ◌<◌, subst, wrap, refl, sym, ap, arith, GoError,
  Result, ok, err, [], ◌∷◌, is_empty, if◌then◌else◌, text_eq, text_eq_iff,
}
use ocu_rclone_filestore.Base.Int.{ℤ, pos, negsuc}
use ocu_rclone_filestore.Brokerrpc.Client.{
  Client, ClientOptions, ParsedUrl, or_default, new_client, new_with_options,
  default_message_ceiling, default_max_download_bytes, default_max_list_pages,
}

pub passed :
    {A : Type 0} (b : Bool) (e : GoError) (r : Result A) (a : A)
    → (if b then err e else r) ≡ ok a
    → (b ≡ false) × (r ≡ ok a)
passed true e r a h = cc
passed false e r a h = (refl, h)

pub is_empty→nonempty : (t : Text) → is_empty t ≡ false → t ≢ []
is_empty→nonempty [] h = λ e. absurd (bad h)
  where
    bad : true ≡ false → ⊥
    bad e = cc
is_empty→nonempty (c ∷ t) h = λ e. cc

or_default-pos : (o : ℤ) (d : ℕ) → 0 < d → 0 < or_default o d
or_default-pos (pos n) d h = ground arith
or_default-pos (negsuc n) d h = h

-- A client for exactly these arguments, over an https URL with a host.
abbrev pub IsClientFor : Text → Text → Text → ParsedUrl → Client → Type 0
IsClientFor url fs_id auth_token u c =
    (c.service_url ≡ url)
    × (c.fs_id ≡ fs_id)
    × (c.auth_token ≡ auth_token)
    × (fs_id ≢ [])
    × (auth_token ≢ [])
    × (u.scheme ≡ codes "https")
    × (u.host ≢ [])
    × (0 < c.message_ceiling)
    × (0 < c.max_download_bytes)
    × (0 < c.max_list_pages)

not-false : (b : Bool) → not b ≡ false → b ≡ true
not-false true h = refl
not-false false h = cc

message_room : 0 < default_message_ceiling
message_room = omega arith

download_room : 0 < default_max_download_bytes
download_room = omega arith

page_room : 0 < default_max_list_pages
page_room = omega arith

abbrev pub client_of : Text → Text → Text → ClientOptions → Client
client_of url fs_id auth_token opts = record {
  service_url = url;
  fs_id = fs_id;
  auth_token = auth_token;
  message_ceiling = or_default opts.message_ceiling default_message_ceiling;
  max_download_bytes = or_default opts.max_download_bytes default_max_download_bytes;
  max_list_pages = default_max_list_pages;
}

new_client-IsClientFor :
    (url fs_id auth_token pem : Text) (opts : ClientOptions) (u : ParsedUrl)
    (transport : Result (Unit {0})) (c : Client)
    → new_client url fs_id auth_token pem opts u transport ≡ ok c
    → IsClientFor url fs_id auth_token u c
unfolding new_client
new_client-IsClientFor url fs_id auth_token pem opts u (err e) c h = absurd (ground arith)
new_client-IsClientFor url fs_id auth_token pem opts u (ok t) c h =
    let (scheme, h1) = passed _ _ _ c h in
    let (host, h2) = passed _ _ _ c h1 in
    let (fs, h3) = passed _ _ _ c h2 in
    let (auth, h4) = passed _ _ _ c h3 in
    let (cert, h5) = passed _ _ _ c h4 in
    let built : client_of url fs_id auth_token opts ≡ c = ok-injective h5 in
    (
      ap (λ x. x.service_url) (sym built),
      ap (λ x. x.fs_id) (sym built),
      ap (λ x. x.auth_token) (sym built),
      is_empty→nonempty fs_id fs,
      is_empty→nonempty auth_token auth,
      (text_eq_iff u.scheme (codes "https")).0
          (not-false (text_eq u.scheme (codes "https")) scheme),
      is_empty→nonempty u.host host,
      subst (λ (x : Client). 0 < x.message_ceiling) built
          (or_default-pos opts.message_ceiling default_message_ceiling message_room),
      subst (λ (x : Client). 0 < x.max_download_bytes) built
          (or_default-pos opts.max_download_bytes default_max_download_bytes download_room),
      subst (λ (x : Client). 0 < x.max_list_pages) built page_room,
    )
  where
    ok-injective : {x y : Client} → ok x ≡ ok y → x ≡ y
    ok-injective e = cc

-- When a client is built it is for exactly the URL, the filesystem and the token given, of which the
-- last two are not empty; the URL parses to the https scheme with a host; and the message ceiling,
-- the download cap and the page ceiling are positive, whatever the options.
pub new_with_options-IsClientFor :
    (parse_url : Text → Result ParsedUrl) (build_transport : Text → Result (Unit {0}))
    (url fs_id auth_token pem : Text) (opts : ClientOptions) (c : Client)
    → new_with_options parse_url build_transport url fs_id auth_token pem opts ≡ ok c
    → (u : ParsedUrl) × (parse_url url ≡ ok u) × IsClientFor url fs_id auth_token u c
unfolding new_with_options
new_with_options-IsClientFor parse_url build_transport url fs_id auth_token pem opts c h =
    let (given, h1) = passed _ _ _ c h in of_parsed (parse_url url) h1
  where
    of_parsed :
        (r : Result ParsedUrl)
        → elim r [
          | err e ↦ err (wrap "brokerrpc.New: serviceURL is not a valid URL: %w" [] e)
          | ok u ↦ new_client url fs_id auth_token pem opts u (build_transport pem)
        ]
          ≡ ok c
        → (u : ParsedUrl) × (r ≡ ok u) × IsClientFor url fs_id auth_token u c
    of_parsed (err e) h1 = cc
    of_parsed (ok u) h1 =
        (u, refl, new_client-IsClientFor url fs_id auth_token pem opts u (build_transport pem) c h1)

-- A client is built over a transport only.
new_client_transport :
    (url fs_id auth_token pem : Text) (opts : ClientOptions) (u : ParsedUrl)
    (transport : Result (Unit {0})) (c : Client)
    → new_client url fs_id auth_token pem opts u transport ≡ ok c
    → transport ≡ ok tt
unfolding new_client
new_client_transport url fs_id auth_token pem opts u (err e) c h = absurd (ground arith)
new_client_transport url fs_id auth_token pem opts u (ok t) c h = refl

pub new_with_options_transport :
    (parse_url : Text → Result ParsedUrl) (build_transport : Text → Result (Unit {0}))
    (url fs_id auth_token pem : Text) (opts : ClientOptions) (c : Client)
    → new_with_options parse_url build_transport url fs_id auth_token pem opts ≡ ok c
    → build_transport pem ≡ ok tt
unfolding new_with_options
new_with_options_transport parse_url build_transport url fs_id auth_token pem opts c h =
    let (given, h1) = passed _ _ _ c h in of_parsed (parse_url url) h1
  where
    of_parsed :
        (r : Result ParsedUrl)
        → elim r [
          | err e ↦ err (wrap "brokerrpc.New: serviceURL is not a valid URL: %w" [] e)
          | ok u ↦ new_client url fs_id auth_token pem opts u (build_transport pem)
        ]
          ≡ ok c
        → build_transport pem ≡ ok tt
    of_parsed (err e) h1 = cc
    of_parsed (ok u) h1 = new_client_transport url fs_id auth_token pem opts u _ c h1

pub nonempty→is_empty : (t : Text) → t ≢ [] → is_empty t ≡ false
nonempty→is_empty [] h = absurd (h refl)
nonempty→is_empty (c ∷ t) h = refl

-- The arguments from which a client is built.
pub new_with_options_built :
    (parse_url : Text → Result ParsedUrl) (build_transport : Text → Result (Unit {0}))
    (url fs_id auth_token pem : Text) (opts : ClientOptions) (u : ParsedUrl)
    → url ≢ []
    → parse_url url ≡ ok u
    → u.scheme ≡ codes "https"
    → u.host ≢ []
    → fs_id ≢ []
    → auth_token ≢ []
    → pem ≢ []
    → build_transport pem ≡ ok tt
    → new_with_options parse_url build_transport url fs_id auth_token pem opts
      ≡ ok (client_of url fs_id auth_token opts)
unfolding new_with_options new_client
new_with_options_built parse_url build_transport url fs_id auth_token pem opts u given parsed https
      host fs auth cert transport =
    rw
      (
        nonempty→is_empty url given,
        parsed,
        (text_eq_iff u.scheme (codes "https")).1 https,
        nonempty→is_empty u.host host,
        nonempty→is_empty fs_id fs,
        nonempty→is_empty auth_token auth,
        nonempty→is_empty pem cert,
        transport,
      )
      refl

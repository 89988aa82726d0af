-- ===== src/Ocufs/NewFs/Scope.antt =====
-- The Fs that NewFs of backend/ocufs/ocufs.go builds, and its broker client.
use ocu_rclone_filestore.Base.{
  ℕ, Text, Bool, true, false, ◌⊎◌, inl, inr, ◌≡◌, ◌↔◌, refl, sym, ap, ◌∙◌, arith, wrap, Result, ok,
  err, [],
}
use ocu_rclone_filestore.Ocufs.Interface.{Encoder}
use ocu_rclone_filestore.Brokerrpc.Client.{Client}
use ocu_rclone_filestore.Brokerrpc.Client.New.{passed, is_empty→nonempty}
use ocu_rclone_filestore.Ocufs.NewFs.{
  Options, Built, Backing, new_fs, from_options, new_broker_client, built_of, with_client,
  with_encoding,
}
use ocu_rclone_filestore.Ocufs.NewFs.Dial.{IsUsable, checked, client_ok, client_built}

-- An Fs with this name, root and posture, over a client for this filesystem with this token.
abbrev pub IsFsFor : Text → Text → Options → Built → Type 0
IsFsFor name root opts built =
    (built.name ≡ name)
    × (built.fs.root ≡ root)
    × (built.fs.read_only ≡ opts.read_only)
    × (built.client.service_url ≡ opts.service_url)
    × (built.client.fs_id ≡ opts.filesystem_id)
    × (built.client.auth_token ≡ opts.auth_token)
    × (built.enc ≡ opts.enc)

-- What an Fs keeps of its name, root and options, over its client.
abbrev Carries : Text → Text → Options → Client → Built → Type 0
Carries name root opts c built =
    (built.name ≡ name)
    × (built.fs.root ≡ root)
    × (built.fs.read_only ≡ opts.read_only)
    × (built.client ≡ c)
    × (built.enc ≡ opts.enc)

with_client-Carries :
    (address : ℕ) (name root : Text) (opts : Options) (r : Result Client) (built : Built)
    → with_client address name root opts r ≡ ok built
    → (c : Client) × (r ≡ ok c) × Carries name root opts c built
with_client-Carries address name root opts (err e) built h = absurd (ground arith)
with_client-Carries address name root opts (ok c) built h = (c, refl, ground arith)

module _ {Pool : Type 0} (b : Backing Pool) (opts : Options) where
  pub from_options_ok :
      (name root : Text) (built : Built)
      → from_options b name root opts ≡ ok built
      → IsUsable b opts × IsFsFor name root opts built
  unfolding from_options
  from_options_ok name root built h =
      let (url, h1) = passed _ _ _ built h in
      let (fs, h2) = passed _ _ _ built h1 in
      let (auth, h3) = passed _ _ _ built h2 in
      let (cert, h4) = passed _ _ _ built h3 in
      let (c, made, carries) =
        with_client-Carries b.address name root opts
          (new_broker_client b opts.service_url opts.filesystem_id opts.auth_token opts.ca_cert_pem)
          built h4 in
      let (named, rooted, posture, client, enc) = carries in
      let (https, certificate, of_url, of_fs, of_auth) = client_ok b opts c made in
      (
        record {
          service_url = is_empty→nonempty opts.service_url url;
          filesystem_id = is_empty→nonempty opts.filesystem_id fs;
          auth_token = is_empty→nonempty opts.auth_token auth;
          ca_cert_pem = is_empty→nonempty opts.ca_cert_pem cert;
          https = https;
          certificate = certificate;
        },
        (
          named,
          rooted,
          posture,
          ap (λ x. x.service_url) client ∙ of_url,
          ap (λ x. x.fs_id) client ∙ of_fs,
          ap (λ x. x.auth_token) client ∙ of_auth,
          enc,
        ),
      )

  from_options_built :
      (name root : Text)
      → IsUsable b opts
      → (built : Built) × (from_options b name root opts ≡ ok built)
  unfolding from_options
  from_options_built name root usable =
      let (c, made) = client_built b opts usable in
      (
        built_of b.address name root opts c,
        checked opts.service_url _ _ usable.service_url
            ∙ checked opts.filesystem_id _ _ usable.filesystem_id
            ∙ checked opts.auth_token _ _ usable.auth_token
            ∙ checked opts.ca_cert_pem _ _ usable.ca_cert_pem
            ∙ ap (with_client b.address name root opts) made,
      )

-- The options that a config map gives, with the encoder that is used.
abbrev pub Gives :
    {M Pool : Type 0} → Backing Pool → (M → Result Options) → (M → Bool) → M → Options → Type 0
Gives b set has_encoding m opts =
    (parsed : Options) × (set m ≡ ok parsed)
    × (((has_encoding m ≡ true) × (opts ≡ parsed))
        ⊎ ((has_encoding m ≡ false) × (opts ≡ record parsed { enc = b.default_encoding })))

pub Gives-with_encoding :
    (has_key : Bool) (default_encoding : Encoder) (parsed opts : Options)
    → (((has_key ≡ true) × (opts ≡ parsed))
        ⊎ ((has_key ≡ false) × (opts ≡ record parsed { enc = default_encoding })))
      ↔ (opts ≡ with_encoding default_encoding has_key parsed)
Gives-with_encoding true d parsed opts = (λ h. ground arith, λ e. inl (refl, e))
Gives-with_encoding false d parsed opts = (λ h. ground arith, λ e. inr (refl, e))

module _ {M Pool : Type 0} (b : Backing Pool) (set : M → Result Options) (has_encoding : M → Bool)
    (name root : Text) (m : M) where
  new_fs_ok :
      (built : Built)
      → new_fs b set has_encoding name root m ≡ ok built
      → (opts : Options) × Gives b set has_encoding m opts
        × IsUsable b opts
        × IsFsFor name root opts built
  unfolding new_fs
  new_fs_ok built h = from_set (set m) refl h
    where
      from_set :
          (r : Result Options)
          → set m ≡ r
          → elim r [
            | err e ↦ err (wrap "ocufs: parse options: %w" [] e)
            | ok parsed ↦
                from_options b name root (with_encoding b.default_encoding (has_encoding m) parsed)
          ]
            ≡ ok built
          → (opts : Options) × Gives b set has_encoding m opts
            × IsUsable b opts
            × IsFsFor name root opts built
      from_set (err e) e' h' = cc
      from_set (ok parsed) e' h' =
          let opts = with_encoding b.default_encoding (has_encoding m) parsed in
          let (usable, is_for) = from_options_ok b opts name root built h' in
          (
            opts,
            (
              parsed,
              e',
              (Gives-with_encoding (has_encoding m) b.default_encoding parsed opts).1 refl,
            ),
            usable,
            is_for,
          )

  new_fs_built :
      (opts : Options)
      → Gives b set has_encoding m opts
      → IsUsable b opts
      → (built : Built) × (new_fs b set has_encoding name root m ≡ ok built)
  unfolding new_fs
  new_fs_built opts (parsed, given, choice) usable =
      let same = (Gives-with_encoding (has_encoding m) b.default_encoding parsed opts).0 choice in
      let (built, made) = from_options_built b opts name root usable in
      (built, rw (new_fs, given) (ap (from_options b name root) (sym same) ∙ made))

-- An Fs is built exactly from a config map whose options can be parsed, and have a token, a
-- filesystem, an https URL with a host and a trust anchor with a certificate. Then it has the name
-- and the root that it is given, the posture of the options, their encoder or, where the key is
-- missing, the backend's default, and a client for their URL, their filesystem and their token.
pub new_fs_iff :
    {M Pool : Type 0} (b : Backing Pool) (set : M → Result Options) (has_encoding : M → Bool)
    → (name root : Text) (m : M)
    → (((built : Built) × (new_fs b set has_encoding name root m ≡ ok built))
        ↔ ((opts : Options) × Gives b set has_encoding m opts × IsUsable b opts))
      × ((built : Built)
          → new_fs b set has_encoding name root m ≡ ok built
          → (opts : Options) × Gives b set has_encoding m opts × IsFsFor name root opts built)
new_fs_iff b set has_encoding name root m = (
  (
    λ (built, h).
        let (opts, given, usable, _) = new_fs_ok b set has_encoding name root m built h in
        (opts, given, usable),
    λ (opts, given, usable). new_fs_built b set has_encoding name root m opts given usable,
  ),
  λ built h.
      let (opts, given, _, is_for) = new_fs_ok b set has_encoding name root m built h in
      (opts, given, is_for),
)

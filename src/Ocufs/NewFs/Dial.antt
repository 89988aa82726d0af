-- ===== src/Ocufs/NewFs/Dial.antt =====
-- brokerrpc.New as NewFs of backend/ocufs/ocufs.go calls it.
use ocu_rclone_filestore.Base.{
  Text, codes, ◌≡◌, ◌≢◌, inl, inr, refl, arith, Option, some, Option-cases, GoError, Result, ok,
  err, [], ◌∷◌, is_empty, if◌then◌else◌,
}
use ocu_rclone_filestore.Brokerrpc.Client.{Client, ParsedUrl}
use ocu_rclone_filestore.Brokerrpc.Client.New.{
  new_with_options-IsClientFor, new_with_options_transport, new_with_options_built,
}
use ocu_rclone_filestore.Brokerrpc.Transport.{https_transport}
use ocu_rclone_filestore.Ocufs.NewFs.{
  Options, Backing, new_broker_client, transport_check, zero_options, no_value,
}

-- The URL is an https URL with a host.
abbrev pub IsHttps : (Text → Result ParsedUrl) → Text → Type 0
IsHttps parse_url url =
    (u : ParsedUrl) × (parse_url url ≡ ok u) × (u.scheme ≡ codes "https") × (u.host ≢ [])

-- Options from which a client can be made.
pub record IsUsable {Pool : Type 0} (b : Backing Pool) (opts : Options) : Type 0 where
  pub service_url : opts.service_url ≢ []
  pub filesystem_id : opts.filesystem_id ≢ []
  pub auth_token : opts.auth_token ≢ []
  pub ca_cert_pem : opts.ca_cert_pem ≢ []
  pub https : IsHttps b.parse_url opts.service_url
  pub certificate : (pool : Pool) × (b.append_certs opts.ca_cert_pem ≡ some pool)

-- A check that refuses, passed.
pub checked :
    {A : Type 0} (t : Text) (e : GoError) (r : Result A)
    → t ≢ []
    → (if is_empty t then err e else r) ≡ r
checked [] e r h = absurd (h refl)
checked (c ∷ t) e r h = refl

transport_ok :
    {Pool : Type 0} (append_certs : Text → Option Pool) (pem : Text)
    → no_value (https_transport append_certs pem) ≡ ok tt
    → (pool : Pool) × (append_certs pem ≡ some pool)
unfolding https_transport
transport_ok append_certs [] h = absurd (ground arith)
transport_ok append_certs (c ∷ pem) h = elim (Option-cases (append_certs (c ∷ pem))) [
  | inl e ↦ absurd (ground arith)
  | inr found ↦ found
]

transport_built :
    {Pool : Type 0} (append_certs : Text → Option Pool) (pem : Text) (pool : Pool)
    → pem ≢ []
    → append_certs pem ≡ some pool
    → no_value (https_transport append_certs pem) ≡ ok tt
unfolding https_transport
transport_built append_certs [] pool h found = absurd (h refl)
transport_built append_certs (c ∷ pem) pool h found = rw found refl

module _ {Pool : Type 0} (b : Backing Pool) (opts : Options) where
  pub client_ok :
      (c : Client)
      → new_broker_client b opts.service_url opts.filesystem_id opts.auth_token opts.ca_cert_pem
        ≡ ok c
      → IsHttps b.parse_url opts.service_url
        × ((pool : Pool) × (b.append_certs opts.ca_cert_pem ≡ some pool))
        × (c.service_url ≡ opts.service_url)
        × (c.fs_id ≡ opts.filesystem_id)
        × (c.auth_token ≡ opts.auth_token)
  unfolding new_broker_client
  client_ok c h =
      let (u, parsed, for_opts) =
        new_with_options-IsClientFor b.parse_url (transport_check b) opts.service_url
          opts.filesystem_id opts.auth_token opts.ca_cert_pem zero_options c h in
      let (url, fs, auth, _, _, https, host, _, _, _) = for_opts in
      (
        (u, parsed, https, host),
        transport_ok b.append_certs opts.ca_cert_pem (
            new_with_options_transport b.parse_url (transport_check b) opts.service_url
              opts.filesystem_id opts.auth_token opts.ca_cert_pem zero_options c h),
        url,
        fs,
        auth,
      )

  pub client_built :
      IsUsable b opts
      → (c : Client) × (new_broker_client b opts.service_url opts.filesystem_id opts.auth_token
            opts.ca_cert_pem
          ≡ ok c)
  unfolding new_broker_client
  client_built usable =
      let (u, parsed, https, host) = usable.https in
      let (pool, found) = usable.certificate in
      (
        _,
        new_with_options_built b.parse_url (transport_check b) opts.service_url opts.filesystem_id
            opts.auth_token opts.ca_cert_pem zero_options u usable.service_url parsed https host
            usable.filesystem_id usable.auth_token usable.ca_cert_pem
            (transport_built b.append_certs opts.ca_cert_pem pool usable.ca_cert_pem found),
      )

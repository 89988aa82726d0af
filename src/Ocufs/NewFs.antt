-- ===== src/Ocufs/NewFs.antt =====
-- backend/ocufs/ocufs.go, NewFs, and options.go: the backend from a config map. `M` is the type of
-- the config maps, `set` is configstruct.Set, and `has_encoding` tells whether the config map has
-- the key of the encoder. The address is the one that the new Fs gets.
pub mod Dial
pub mod Scope
use ocu_rclone_filestore.Base.{
  ℕ, Text, Bool, Option, GoError, message, wrap, Result, ok, err, [], is_empty, if◌then◌else◌,
}
use ocu_rclone_filestore.Base.Int.{pos}
use ocu_rclone_filestore.Brokerrpc.Client.{Client, ClientOptions, ParsedUrl, new_with_options}
use ocu_rclone_filestore.Brokerrpc.Transport.{Transport, https_transport}
use ocu_rclone_filestore.Ocufs.Interface.{Encoder}
use ocu_rclone_filestore.Ocufs.Fs.{Fs}

pub record Options : Type 0 where
  pub read_only : Bool
  pub service_url : Text
  pub filesystem_id : Text
  pub auth_token : Text
  pub ca_cert_pem : Text
  pub enc : Encoder

-- An Fs with what its methods take besides.
pub record Built : Type 0 where
  pub name : Text
  pub fs : Fs
  pub client : Client
  pub enc : Encoder

-- What NewFs takes from url.Parse, from the certificate pool, and from rclone's defaults.
pub record Backing (Pool : Type 0) : Type 0 where
  pub parse_url : Text → Result ParsedUrl
  pub append_certs : Text → Option Pool
  pub default_encoding : Encoder
  pub address : ℕ

abbrev pub no_value : {A : Type 0} → Result A → Result (Unit {0})
no_value (ok a) = ok tt
no_value (err e) = err e

abbrev pub transport_check : {Pool : Type 0} → Backing Pool → Text → Result (Unit {0})
transport_check b pem = no_value (https_transport b.append_certs pem)

-- ClientOptions{}
abbrev pub zero_options : ClientOptions
zero_options = record { message_ceiling = pos 0; max_download_bytes = pos 0 }

-- brokerrpc.New, over the transport for the trust anchor.
unfoldable pub new_broker_client :
    {Pool : Type 0} → Backing Pool → Text → Text → Text → Text → Result Client
unfolding new_with_options https_transport
new_broker_client b service_url fs_id auth_token ca_cert_pem =
    new_with_options b.parse_url (transport_check b) service_url fs_id auth_token ca_cert_pem
      zero_options

abbrev pub built_of : ℕ → Text → Text → Options → Client → Built
built_of address name root opts c = record {
  name = name;
  fs = record { address = address; root = root; read_only = opts.read_only };
  client = c;
  enc = opts.enc;
}

abbrev pub with_client : ℕ → Text → Text → Options → Result Client → Result Built
with_client address name root opts (err e) = err (wrap "ocufs: create broker client: %w" [] e)
with_client address name root opts (ok c) = ok (built_of address name root opts c)

-- The checks of the options, and the Fs.
unfoldable pub from_options : {Pool : Type 0} → Backing Pool → Text → Text → Options → Result Built
unfolding new_broker_client
from_options b name root opts =
    if is_empty opts.service_url
    then err (message "ocufs: service_url is required" [])
    else if is_empty opts.filesystem_id
    then err (message "ocufs: filesystem_id is required" [])
    else if is_empty opts.auth_token
    then err (message "ocufs: auth_token is required" [])
    else if is_empty opts.ca_cert_pem
    then err (message "ocufs: ca_cert_pem is required" [])
    else with_client b.address name root opts
        (new_broker_client b opts.service_url opts.filesystem_id opts.auth_token opts.ca_cert_pem)

abbrev pub with_encoding : Encoder → Bool → Options → Options
with_encoding default_encoding has_key opts =
    if has_key then opts else record opts { enc = default_encoding }

unfoldable pub new_fs :
    {M Pool : Type 0}
    → Backing Pool
    → (M → Result Options)
    → (M → Bool)
    → Text
    → Text
    → M
    → Result Built
unfolding from_options
new_fs b set has_encoding name root m = elim (set m) [
  | err e ↦ err (wrap "ocufs: parse options: %w" [] e)
  | ok opts ↦ from_options b name root (with_encoding b.default_encoding (has_encoding m) opts)
]

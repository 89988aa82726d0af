-- ===== src/Ocufs/Registration.antt =====
-- backend/ocufs/ocufs.go and options.go: what the backend tells rclone about itself, and the plain
-- accessors of Fs and Object. The help texts are left out. `F` is the type of the constructors.
use ocu_rclone_filestore.Base.{
  ℕ, Text, codes, Bool, true, false, ◌≡◌, ◌≢◌, refl, Option, none, some, sentinel, Sentinel, Result,
  ok, err, List, [], ◌∷◌, ◌++◌, All, text_eq, if◌then◌else◌,
}
use ocu_rclone_filestore.Ocufs.Interface.{Encoder}
use ocu_rclone_filestore.Ocufs.Fs.{Fs, Object}
use ocu_rclone_filestore.Ocufs.NewFs.{Options, Built, Backing, from_options}
use ocu_rclone_filestore.Ocufs.NewFs.Scope.{from_options_ok}

-- The bits of rclone's encoder that the backend sets.
pub data EncodeBit : Type 0 where
  encode_ctl encode_invalid_utf8 encode_back_slash : EncodeBit
  encode_double_quote encode_right_space encode_right_period : EncodeBit

abbrev pub default_encoding : List EncodeBit
default_encoding =
    encode_ctl ∷ encode_invalid_utf8 ∷ encode_back_slash ∷ encode_double_quote ∷ encode_right_space
    ∷ encode_right_period ∷ []

pub data DefaultValue : Type 0 where
  bool_default : Bool → DefaultValue
  text_default : Text → DefaultValue
  encoding_default : List EncodeBit → DefaultValue

-- fs.Option
pub record FsOption : Type 0 where
  pub name : Text
  pub default : DefaultValue
  pub required : Bool
  pub sensitive : Bool
  pub advanced : Bool

abbrev required_text : Text → Bool → FsOption
required_text name sensitive = record {
  name = name;
  default = text_default [];
  required = true;
  sensitive = sensitive;
  advanced = false;
}

abbrev pub fs_options : List FsOption
fs_options =
    record {
      name = codes "read_only";
      default = bool_default false;
      required = false;
      sensitive = false;
      advanced = false;
    }
    ∷ required_text (codes "service_url") false
    ∷ required_text (codes "filesystem_id") false
    ∷ required_text (codes "auth_token") true
    ∷ required_text (codes "ca_cert_pem") false
    ∷ record {
      name = codes "encoding";
      default = encoding_default default_encoding;
      required = false;
      sensitive = false;
      advanced = true;
    }
    ∷ []

-- fs.RegInfo
pub record RegInfo (F : Type 0) : Type 0 where
  pub name : Text
  pub description : Text
  pub new_fs : F
  pub options : List FsOption

abbrev pub reg_info : {F : Type 0} → F → RegInfo F
reg_info new_fs = record {
  name = codes "ocufs";
  description = codes "Open Computer Use file-store broker (guest-side mount)";
  new_fs = new_fs;
  options = fs_options;
}

-- The features that the backend sets by itself; for a method, whether it is advertised.
pub record Features : Type 0 where
  pub read_mime_type : Bool
  pub can_have_empty_directories : Bool
  pub copy : Bool
  pub move : Bool
  pub dir_move : Bool
  pub put_stream : Bool

-- `fill` is what rclone adds by looking at the Fs.
abbrev pub build_features : (Features → Features) → Features
build_features fill = fill (record {
  read_mime_type = true;
  can_have_empty_directories = true;
  copy = true;
  move = true;
  dir_move = true;
  put_stream = false;
})

-- In nanoseconds.
abbrev pub precision : ℕ
precision = 1000000000

abbrev pub hashes : List ℕ
hashes = []

abbrev pub name_of : Built → Text
name_of f = f.name

abbrev pub root_of : Fs → Text
root_of f = f.root

abbrev pub fs_string : Fs → Text
fs_string f = codes "ocufs:" ++ f.root

abbrev pub fs_of : Object → ℕ
fs_of o = o.fs

abbrev pub object_string : Object → Text
object_string o = o.path

abbrev pub remote_of : Object → Text
remote_of o = o.remote

abbrev pub hash : Object → ℕ → Result Text
hash o ty = err (sentinel Sentinel.hash_unsupported)

abbrev pub storable : Object → Bool
storable o = true

-- A value of the Options struct.
pub data OptionValue : Type 0 where
  flag : Bool → OptionValue
  text : Text → OptionValue
  encoding : Encoder → OptionValue

-- The field of Options that carries this key in its struct tag.
unfoldable tagged : Options → Text → Option OptionValue
unfolding text_eq
tagged opts key =
    if text_eq key (codes "read_only")
    then some (flag opts.read_only)
    else if text_eq key (codes "service_url")
    then some (text opts.service_url)
    else if text_eq key (codes "filesystem_id")
    then some (text opts.filesystem_id)
    else if text_eq key (codes "auth_token")
    then some (text opts.auth_token)
    else if text_eq key (codes "ca_cert_pem")
    then some (text opts.ca_cert_pem)
    else if text_eq key (codes "encoding")
    then some (encoding opts.enc)
    else none

-- The option is there, and it is not empty where the table requires it.
abbrev IsGiven : Options → FsOption → Type 0
IsGiven opts spec =
    (v : OptionValue) × (tagged opts spec.name ≡ some v)
    × (spec.required ≡ true → (t : Text) × (v ≡ text t) × (t ≢ []))

-- Every option of the table has its field, and NewFs builds no Fs with a required one empty.
from_options-AreGiven :
    {Pool : Type 0} (b : Backing Pool) (name root : Text) (opts : Options) (built : Built)
    → from_options b name root opts ≡ ok built
    → All (IsGiven opts) fs_options
unfolding tagged
from_options-AreGiven b name root opts built h =
    let u = (from_options_ok b opts name root built h).0 in
    (
      (_, refl, λ r. cc),
      (
        (_, refl, λ r. (_, refl, u.service_url)),
        (
          (_, refl, λ r. (_, refl, u.filesystem_id)),
          (
            (_, refl, λ r. (_, refl, u.auth_token)),
            ((_, refl, λ r. (_, refl, u.ca_cert_pem)), ((_, refl, λ r. cc), tt)),
          ),
        ),
      ),
    )

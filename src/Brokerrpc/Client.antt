-- ===== src/Brokerrpc/Client.antt =====
-- internal/brokerrpc/client.go: the client, its construction, and the unary call behind every
-- operation. `http` stands for the HTTP client (`http.Client.Do` over the pinned transport): it maps
-- a request and the state of the world to a new state and a transport error or a response.
pub mod New
use ocu_rclone_filestore.Base.{
  ℕ, Bool, ◌||◌, Text, codes, is_empty, text_eq, Option, GoError, message, wrap, str, Result, ok,
  err, [], ◌∷◌, ◌++◌, ltb, leb, if◌then◌else◌, take, reverse, ◌==◌, not,
}
use ocu_rclone_filestore.Brokerrpc.Intent.{Op, op_name, AuthorizationMetadata, stamp_auth_meta}
use ocu_rclone_filestore.Brokerrpc.Messages.{Fields, WireRequest}
use ocu_rclone_filestore.Brokerrpc.Reader.{Reader, payload}
use ocu_rclone_filestore.Brokerrpc.Status.{
  Seconds, map_http_status, capture_error_body, max_error_body_bytes,
}
use ocu_rclone_filestore.Base.Int.{ℤ, pos, negsuc}

pub record HttpResponse : Type 0 where
  pub status : ℕ
  pub retry_after : Text
  -- ContentLength, where -1 is `none`
  pub content_length : Option ℕ
  pub body : Reader

-- What `http.Client.Do` returns.
pub data Reply : Type 0 where
  failed : GoError → Reply
  responded : HttpResponse → Reply

pub record Client : Type 0 where
  pub service_url : Text
  pub fs_id : Text
  pub auth_token : Text
  pub message_ceiling : ℕ
  pub max_download_bytes : ℕ
  pub max_list_pages : ℕ

pub record ClientOptions : Type 0 where
  pub message_ceiling : ℤ
  pub max_download_bytes : ℤ

-- What `url.Parse` gives for a service URL.
pub record ParsedUrl : Type 0 where
  pub scheme : Text
  pub host : Text

abbrev pub default_message_ceiling : ℕ
default_message_ceiling = 262144

abbrev pub default_max_download_bytes : ℕ
default_max_download_bytes = 17179869184

abbrev pub default_max_list_pages : ℕ
default_max_list_pages = 65536

abbrev pub max_json_response_bytes : ℕ
max_json_response_bytes = 67108864

-- An option that is not positive takes the default.
abbrev pub or_default : ℤ → ℕ → ℕ
or_default (pos n) d = if leb n 0 then d else n
or_default (negsuc n) d = d

abbrev refuse {ℓ} : {A : Type ℓ} → GoError → Result A
refuse e = err e

-- The checks of a parsed URL and of the other arguments, and the client. `transport` is what
-- `httpsTransport` makes of the trust anchor.
unfoldable pub new_client :
    Text → Text → Text → Text → ClientOptions → ParsedUrl → Result (Unit {0}) → Result Client
unfolding text_eq
new_client service_url fs_id auth_token ca_cert_pem opts u transport =
    if not (text_eq u.scheme (codes "https"))
    then err (
        message "brokerrpc.New: serviceURL must be an https:// URL, got scheme %q"
          (str u.scheme ∷ []))
    else if is_empty u.host
    then err (message "brokerrpc.New: serviceURL must include a host" [])
    else if is_empty fs_id
    then err (message "brokerrpc.New: fsID must not be empty" [])
    else if is_empty auth_token
    then err (message "brokerrpc.New: authToken must not be empty" [])
    else if is_empty ca_cert_pem
    then err (message "brokerrpc.New: caCertPEM must not be empty" [])
    else elim transport [
      | err e ↦ err (wrap "brokerrpc.New: build transport: %w" [] e)
      | ok _ ↦ ok (record {
        service_url = service_url;
        fs_id = fs_id;
        auth_token = auth_token;
        message_ceiling = or_default opts.message_ceiling default_message_ceiling;
        max_download_bytes = or_default opts.max_download_bytes default_max_download_bytes;
        max_list_pages = default_max_list_pages;
      })
    ]

-- NewWithOptions: `parse_url` is url.Parse and `build_transport` is httpsTransport.
unfoldable pub new_with_options :
    (Text → Result ParsedUrl)
    → (Text → Result (Unit {0}))
    → Text
    → Text
    → Text
    → Text
    → ClientOptions
    → Result Client
unfolding new_client
new_with_options parse_url build_transport service_url fs_id auth_token ca_cert_pem opts =
    if is_empty service_url
    then err (message "brokerrpc.New: serviceURL must not be empty" [])
    else elim (parse_url service_url) [
      | err e ↦ err (wrap "brokerrpc.New: serviceURL is not a valid URL: %w" [] e)
      | ok u ↦
          new_client service_url fs_id auth_token ca_cert_pem opts u (build_transport ca_cert_pem)
    ]

-- strings.TrimRight(s, "/"), on the reversed text.
unfoldable pub drop_slashes : Text → Text
drop_slashes [] = []
drop_slashes (c ∷ s) = if c == b'/' then drop_slashes s else c ∷ s

-- opURL: <service_url>/v1/filestore/fs/<op>
unfoldable pub op_url : Client → Op → Text
unfolding drop_slashes
op_url c op =
    reverse (drop_slashes (reverse c.service_url))
    ++ codes "/"
    ++ codes "v1/filestore/fs/"
    ++ codes (op_name op)

-- The request of an operation: the route, the static credential, and the stamped metadata.
unfoldable pub request : Client → Op → Text → AuthorizationMetadata → Fields → WireRequest
unfolding op_url
request c op content_type am fields = record {
  url = op_url c op;
  authorization = codes "Bearer " ++ c.auth_token;
  content_type = content_type;
  op = op;
  filesystem_id = c.fs_id;
  authorization_metadata = am;
  fields = fields;
}

abbrev pub json_content : Text
json_content = codes "application/json"

-- A status outside 200..299.
abbrev pub is_failure : ℕ → Bool
is_failure status = ltb status 200 || ltb 299 status

-- The typed error of a response that is a failure.
abbrev pub failure : (Text → Option Seconds) → HttpResponse → GoError
failure parse_float r =
    map_http_status parse_float r.status (capture_error_body max_error_body_bytes r.body)
      r.retry_after

-- The verdict of a unary call; `decode` is the JSON decoding of at most max_json_response_bytes.
unfoldable pub unary_verdict {ℓ} :
    {A : Type ℓ} → (Text → Option Seconds) → (Text → Result A) → Op → Reply → Result A
unary_verdict parse_float decode op (failed e) =
    err (wrap "brokerrpc: %s: %w" (str (codes (op_name op)) ∷ []) e)
unary_verdict parse_float decode op (responded r) =
    if is_failure r.status
    then err (failure parse_float r)
    else elim (decode (take max_json_response_bytes (payload r.body))) [
      | err e ↦ err (wrap "brokerrpc: unmarshal %s response: %w" (str (codes (op_name op)) ∷ []) e)
      | ok a ↦ ok a
    ]

-- An acknowledgement is any JSON object, of which nothing is kept.
abbrev pub Ack : Type 0
Ack = Unit {0}

module _ {W : Type 0} (http : WireRequest → W → W × Reply)
    (parse_float : Text → Option Seconds) where
  -- A request is made only when the operation is stamped.
  unfoldable pub call {ℓ} :
      {A : Type ℓ} → Client → (Text → Result A) → Op → Fields → W → W × Result A
  unfolding unary_verdict request
  call c decode op fields w = elim (stamp_auth_meta op) [
    | err e ↦ (w, err e)
    | ok am ↦
        let (w', reply) = http (request c op json_content am fields) w in
        (w', unary_verdict parse_float decode op reply)
  ]

-- ===== src/Brokerrpc/Transport.antt =====
-- internal/brokerrpc/transport.go: the HTTP transport of the client. `append_certs` stands for
-- AppendCertsFromPEM on an empty pool, where `none` means that no certificate was found.
use ocu_rclone_filestore.Base.{
  ℕ, Text, Bool, true, Option, none, some, message, Result, ok, err, [], is_empty, if◌then◌else◌,
}

-- The fields of http.Transport, its dialer and its TLS config that are set; times are in seconds.
pub record Transport (Pool : Type 0) : Type 0 where
  pub dial_timeout : ℕ
  pub keep_alive : ℕ
  pub force_attempt_http2 : Bool
  pub max_idle_conns : ℕ
  pub max_idle_conns_per_host : ℕ
  pub max_conns_per_host : ℕ
  pub idle_conn_timeout : ℕ
  pub tls_handshake_timeout : ℕ
  pub expect_continue_timeout : ℕ
  pub root_cas : Pool
  pub min_version : ℕ

-- tls.VersionTLS12
abbrev pub version_tls12 : ℕ
version_tls12 = 771

abbrev pub transport_over : {Pool : Type 0} → Pool → Transport Pool
transport_over pool = record {
  dial_timeout = 30;
  keep_alive = 30;
  force_attempt_http2 = true;
  max_idle_conns = 4;
  max_idle_conns_per_host = 4;
  max_conns_per_host = 4;
  idle_conn_timeout = 90;
  tls_handshake_timeout = 10;
  expect_continue_timeout = 1;
  root_cas = pool;
  min_version = version_tls12;
}

abbrev pub usable : {Pool : Type 0} → Option Pool → Result (Transport Pool)
usable none = err (message "brokerrpc: ca_cert_pem contains no usable certificate" [])
usable (some pool) = ok (transport_over pool)

unfoldable pub https_transport :
    {Pool : Type 0} → (Text → Option Pool) → Text → Result (Transport Pool)
https_transport append_certs ca_cert_pem =
    if is_empty ca_cert_pem
    then err (message "brokerrpc: ca_cert_pem must not be empty" [])
    else usable (append_certs ca_cert_pem)

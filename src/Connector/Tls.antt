-- ===== src/Connector/Tls.antt =====
-- certutil/material.go, and the TLS settings of connector/redis/tls.go and connector/kafka/tls.go.
-- A pool of certificates is the PEM text that it was read from.
pub mod Material
pub mod Configured
use Prim.Native.String.{String}
use ops_mcp.Model.Errors.{Message, caused}
use ops_mcp.Model.Redis.{RedisTls, redis_has_ca}
use ops_mcp.Model.Kafka.{KafkaTls, kafka_has_ca}
use ops_mcp.Prelude.{
  Bool, true, false, not, ◌&&◌, ◌||◌, Option, none, some, [], ◌++◌, if◌then◌else◌, nat_eq, Str, str,
  str_eq, is_empty, contains, trim_space, Result, ok, err, ◌>>=◌,
}

-- tls.Config; the minimal version is always TLS 1.2.
pub record TlsConfig : Type 0 where
  pub insecure_skip_verify : Bool
  pub server_name : Str
  pub root_cas : Option Str
  pub certificate : Option (Str × Str)

-- os.ReadFile, base64, the reading of a pool and the matching of a certificate with its key.
pub record Crypto : Type 0 where
  pub read_file : Str → Result Str Str
  pub base64 : Str → Result Str Str
  pub parses_ca : Str → Bool
  pub check_pair : Str → Str → Result Str (Unit {0})

module _ (crypto : Crypto) where
  unfoldable pub decode_content : Str → Str → Result Message Str
  decode_content content label =
      if contains content (str "-----BEGIN") then ok content else elim (crypto.base64 content) [
        | err e ↦ err (caused label e)
        | ok decoded ↦
            if is_empty decoded
            then err (caused label (str "base64 content decoded to empty"))
            else ok decoded
      ]

  -- The empty bytes stand for material that is not given.
  unfoldable pub resolve_material : Str → Str → Str → Result Message Str
  resolve_material given_content given_file label =
      let content = trim_space given_content in
      let file = trim_space given_file in
      if not (is_empty content) && not (is_empty file)
      then err (caused label (str "set either content or file, not both"))
      else if not (is_empty file)
      then elim (crypto.read_file file) [ err e ↦ err (caused label e) | ok b ↦ ok b ]
      else if not (is_empty content)
      then decode_content content label
      else ok []

  unfoldable pub root_cas : String → Bool → Str → Str → Result Message (Option Str)
  root_cas kind false ca ca_file = ok none
  root_cas kind true ca ca_file = do
    pem ← resolve_material ca ca_file (str kind ++ str " tls ca")
    if crypto.parses_ca pem
        then ok (some pem)
        else err (caused (str kind) (str "tls: failed to parse CA certificate"))

  -- `has_cert` and `has_key` tell whether either field of each is set.
  unfoldable pub key_pair :
      String → Bool → Bool → Str → Str → Str → Str → Result Message (Option (Str × Str))
  key_pair kind has_cert has_key cert cert_file key key_file =
      if not (has_cert || has_key) then ok none else do
        cert_pem ← resolve_material cert cert_file (str kind ++ str " tls client cert")
        key_pem ← resolve_material key key_file (str kind ++ str " tls private_key")
        if is_empty cert_pem || is_empty key_pem
            then err (caused (str kind) (str "tls: mTLS requires both client cert and private_key"))
            else elim (crypto.check_pair cert_pem key_pem) [
              | err e ↦ err (caused (str kind ++ str " tls: load client certificate") e)
              | ok done ↦ ok (some (cert_pem, key_pem))
            ]

  -- buildTLSConfig of connector/redis/tls.go. `server` is the host, or the configured name.
  unfoldable pub redis_tls_on : Str → RedisTls → Result Message (Option TlsConfig)
  redis_tls_on server cfg = do
    roots ← root_cas "redis" (redis_has_ca cfg) cfg.ca cfg.ca_file
    pair ←
        key_pair "redis" (not (is_empty cfg.cert_file) || not (is_empty cfg.cert))
          (not (is_empty cfg.private_key_file) || not (is_empty cfg.private_key)) cfg.cert
          cfg.cert_file cfg.private_key cfg.private_key_file
    ok (
        some (record {
          insecure_skip_verify = cfg.insecure_skip_verify;
          server_name = if is_empty cfg.server_name then server else cfg.server_name;
          root_cas = roots;
          certificate = pair;
        }))

  unfoldable pub build_redis_tls_config : Str → RedisTls → Result Message (Option TlsConfig)
  build_redis_tls_config server cfg = if not cfg.enabled then ok none else redis_tls_on server cfg

  -- buildTLSConfig of connector/kafka/tls.go. `server` is the host, or the configured name.
  unfoldable pub build_kafka_tls_config : Str → KafkaTls → Result Message (Option TlsConfig)
  build_kafka_tls_config server cfg = if not cfg.enabled then ok none else do
    roots ← root_cas "kafka" (kafka_has_ca cfg) cfg.ca cfg.ca_file
    pair ←
        key_pair "kafka" (not (is_empty cfg.cert_file) || not (is_empty cfg.cert))
          (not (is_empty cfg.private_key_file) || not (is_empty cfg.private_key)) cfg.cert
          cfg.cert_file cfg.private_key cfg.private_key_file
    ok (
        some (record {
          insecure_skip_verify = cfg.insecure_skip_verify;
          server_name = if is_empty cfg.server_name then server else cfg.server_name;
          root_cas = roots;
          certificate = pair;
        }))

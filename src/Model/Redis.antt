-- ===== src/Model/Redis.antt =====
-- model/redis.go.
use ops_mcp.Prelude.{Bool, not, ◌&&◌, ◌||◌, Str, is_empty, ℤ, Dict}

pub record RedisTls : Type 0 where
  pub enabled : Bool
  pub server_name : Str
  pub insecure_skip_verify : Bool
  pub ca : Str
  pub ca_file : Str
  pub cert : Str
  pub cert_file : Str
  pub private_key : Str
  pub private_key_file : Str

unfoldable pub redis_has_client_cert : RedisTls → Bool
redis_has_client_cert t =
    (not (is_empty t.cert_file) || not (is_empty t.cert))
    && (not (is_empty t.private_key_file) || not (is_empty t.private_key))

unfoldable pub redis_has_ca : RedisTls → Bool
redis_has_ca t = not (is_empty t.ca_file) || not (is_empty t.ca)

pub record RedisConnection : Type 0 where
  pub host : Str
  pub port : ℤ
  pub username : Str
  pub password : Str
  pub tls : RedisTls

pub record RedisInstance : Type 0 where
  pub name : Str
  pub description : Str
  pub labels : Dict Str
  pub connection : RedisConnection
  pub readonly : Bool
  pub limit : ℤ

pub record RedisTlsSummary : Type 0 where
  pub enabled : Bool
  pub server_name : Str
  pub insecure_skip_verify : Bool
  pub has_ca : Bool
  pub has_client_cert : Bool

pub record RedisConnectionSummary : Type 0 where
  pub host : Str
  pub port : ℤ
  pub username : Str
  pub tls : RedisTlsSummary

pub record RedisSummary : Type 0 where
  pub name : Str
  pub description : Str
  pub labels : Dict Str
  pub connection : RedisConnectionSummary
  pub readonly : Bool
  pub limit : ℤ

-- ToSummary of a RedisInstance.
unfoldable pub redis_summary : RedisInstance → RedisSummary
unfolding redis_has_ca redis_has_client_cert
redis_summary r = record {
  name = r.name;
  description = r.description;
  labels = r.labels;
  connection = record {
    host = r.connection.host;
    port = r.connection.port;
    username = r.connection.username;
    tls = record {
      enabled = r.connection.tls.enabled;
      server_name = r.connection.tls.server_name;
      insecure_skip_verify = r.connection.tls.insecure_skip_verify;
      has_ca = redis_has_ca r.connection.tls;
      has_client_cert = redis_has_client_cert r.connection.tls;
    };
  };
  readonly = r.readonly;
  limit = r.limit;
}

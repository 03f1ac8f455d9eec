-- ===== src/Connector/Redis/Client.antt =====
-- What the connector uses of the Redis client, a third-party library, and `dial` of redis.go.
use ops_mcp.Config.Manager.{Manager}
use ops_mcp.Config.Lookup.{get_redis}
use ops_mcp.Connector.Tls.{Crypto, TlsConfig, build_redis_tls_config}
use ops_mcp.Model.Errors.{
  AppError, text, caused, not_found, invalid, refuse_invalid, connector_failed,
}
use ops_mcp.Model.Redis.{RedisInstance}
use ops_mcp.Prelude.Value.{Value}
use ops_mcp.Prelude.{
  ℕ, Option, none, some, List, if◌then◌else◌, nat_eq, ℤ, pos, ltb_ℤ, is_nonpos, Str, str, str_eq,
  is_empty, trim_space, Dict, Result, ok, err, ◌>>=◌, ◌>>◌,
}

-- A value, `redis.Nil`, or another error with its text.
pub data Reply {ℓ} (A : Type ℓ) : Type ℓ where
  value : A → Reply A
  nil_reply : Reply A
  failed : Str → Reply A

-- An entry of SLOWLOG: its time in seconds and its duration in microseconds.
pub record SlowLog : Type 0 where
  pub id : ℤ
  pub unix : ℤ
  pub microseconds : ℤ
  pub args : List Str

-- An open connection. SCAN and HSCAN also take how many calls went before, since the server's
-- answer may change from one call to the next.
pub record Client : Type 0 where
  pub ping : Reply Str
  pub info : Option Str → Reply Str
  pub role : Reply Value
  pub db_size : Reply ℤ
  pub type_of : Str → Reply Str
  pub ttl : Str → Reply ℤ
  pub exists : Str → Reply ℤ
  pub get : Str → Reply Str
  pub memory_usage : Str → Reply ℤ
  pub object_encoding : Str → Reply Str
  pub slow_log_get : ℤ → Reply (List SlowLog)
  pub client_list : Reply Str
  pub config_get : Str → Reply (Dict Str)
  pub hlen : Str → Reply ℤ
  pub llen : Str → Reply ℤ
  pub scard : Str → Reply ℤ
  pub zcard : Str → Reply ℤ
  pub zrange_with_scores : Str → ℤ → ℤ → Reply (List (Value × Value))
  pub lrange : Str → ℤ → ℤ → Reply (List Str)
  pub hget : Str → Str → Reply Str
  pub hmget : Str → List Str → Reply (List Value)
  pub scan : ℕ → ℕ → Str → ℤ → Reply (List Str × ℕ)
  pub hscan : Str → ℕ → ℕ → Str → ℤ → Reply (List Str × ℕ)

pub record Options : Type 0 where
  pub host : Str
  pub port : ℤ
  pub db : ℤ
  pub username : Str
  pub password : Str
  pub tls : Option TlsConfig

-- The answer, or the error under the operation's name.
abbrev pub or_failed {ℓ} : {A : Type ℓ} → Str → Reply A → Result AppError A
or_failed op (value a) = ok a
or_failed op nil_reply = connector_failed (caused op (str "redis: nil"))
or_failed op (failed e) = connector_failed (caused op e)

-- The same where `redis.Nil` stands for a missing value.
abbrev pub or_missing {ℓ} : {A : Type ℓ} → Str → Reply A → Result AppError (Option A)
or_missing op (value a) = ok (some a)
or_missing op nil_reply = ok none
or_missing op (failed e) = connector_failed (caused op e)

unfoldable pub require_key : Str → Result AppError (Unit {0})
require_key key = refuse_invalid (is_empty (trim_space key)) (str "redis: key is required")

unfoldable pub require_field : Str → Result AppError (Unit {0})
require_field field = refuse_invalid (is_empty (trim_space field)) (str "redis: field is required")

-- The manager, the TLS library, and the opening of a connection with its first PING.
pub record Redis : Type 0 where
  pub cfg : Manager
  pub crypto : Crypto
  pub connect : Options → Result Str Client

module _ (c : Redis) where
  unfoldable pub lookup_instance : Str → Result AppError RedisInstance
  lookup_instance name =
      if is_empty name
      then invalid (text (str "redis: redis name is required"))
      else elim (get_redis c.cfg name) [
        | ok r ↦ ok r
        | err e ↦ connector_failed (not_found (str "redis") name)
      ]

  unfoldable pub options_of : RedisInstance → ℤ → Option TlsConfig → Options
  options_of r db tls = record {
    host = r.connection.host;
    port = if is_nonpos r.connection.port then pos 6379 else r.connection.port;
    db = db;
    username = r.connection.username;
    password = r.connection.password;
    tls = tls;
  }

  unfoldable pub open_client : Str → Options → Result AppError Client
  open_client name opts = elim (c.connect opts) [
    | ok client ↦ ok client
    | err e ↦ connector_failed (caused name e)
  ]

  unfoldable pub tls_of : RedisInstance → Result AppError (Option TlsConfig)
  tls_of r = elim (build_redis_tls_config c.crypto r.connection.host r.connection.tls) [
    | err m ↦ invalid m
    | ok t ↦ ok t
  ]

  unfoldable pub dial : Str → ℤ → Result AppError Client
  dial name db = do
    r ← lookup_instance name
    refuse_invalid (ltb_ℤ db (pos 0)) (str "redis: db must be >= 0")
    tls ← tls_of r
    open_client name (options_of r db tls)

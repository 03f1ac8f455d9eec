-- ===== src/Connector/Redis/Keys.antt =====
-- The operations of connector/redis/redis.go on a server and on one key.
use ops_mcp.Connector.Redis.Client.{
  Reply, SlowLog, Client, or_failed, or_missing, require_key, Redis, lookup_instance, dial,
}
use ops_mcp.Connector.Redis.Types.{
  PingRequest, PingResult, InfoRequest, InfoResult, RoleRequest, RoleResult, DbsizeRequest,
  DbsizeResult, KeyRequest, TypeResult, TtlResult, ExistsResult, GetResult, MemoryUsageResult,
  ObjectEncodingResult, SlowlogGetRequest, SlowlogEntry, SlowlogGetResult, ClientListRequest,
  ClientListResult, ConfigGetRequest, ConfigGetResult, CardinalityResult,
}
use ops_mcp.Guard.Limits.{LimitError, clamp_limit}
use ops_mcp.Model.Errors.{AppError, text, invalid, refuse_invalid}
use ops_mcp.Prelude.Value.{Value, string, array, items}
use ops_mcp.Prelude.{
  Bool, true, false, ◌&&◌, Option, none, some, List, [], ◌∷◌, ◌++◌, map, if◌then◌else◌, nat_eq,
  ◌==◌, length, take, ℤ, pos, pos_part, ltb_ℤ, Str, str, str_eq, is_empty, trim_space, split,
  Result, ok, err, ◌>>=◌, ◌>>◌,
}

-- The slice of a list up to a limit, and whether something was cut off.
unfoldable pub cut {ℓ} : {A : Type ℓ} → ℤ → List A → List A × Bool
cut limit xs =
    if ltb_ℤ limit (pos (length xs)) then (take (pos_part limit) xs, true) else (xs, false)

-- ClampLimit, with its error under the operation's name.
abbrev pub clamped : Str → Result LimitError ℤ → Result AppError ℤ
clamped op (ok n) = ok n
clamped op (err e) = invalid (text op)

-- A reply that is no array is put into one.
abbrev pub role_of : Value → List Value
role_of (array vs) = items vs
role_of v = v ∷ []

abbrev pub slowlog_entry : SlowLog → SlowlogEntry
slowlog_entry e = record {
  id = e.id;
  timestamp = e.unix;
  duration = e.microseconds;
  command = map string e.args;
}

-- strings.ReplaceAll(s, "\r\n", "\n").
unfoldable pub drop_cr : Str → Str
drop_cr [] = []
drop_cr (a ∷ []) = a ∷ []
drop_cr (a ∷ b ∷ s) =
    let rest = drop_cr (b ∷ s) in if (a == 13) && (b == 10) then rest else a ∷ rest

abbrev pub non_empty_lines : List Str → List Str
non_empty_lines [] = []
non_empty_lines (line ∷ ls) =
    if is_empty (trim_space line) then non_empty_lines ls else trim_space line ∷ non_empty_lines ls

unfoldable pub split_non_empty : Str → List Str
unfolding drop_cr
split_non_empty s = non_empty_lines (split 10 (drop_cr s))

module _ (c : Redis) where
  unfoldable pub ping : PingRequest → Result AppError PingResult
  ping req = do
    client ← dial c req.redis req.db
    res ← or_failed (str "redis ping") client.ping
    ok (record { result = res })

  unfoldable pub info : InfoRequest → Result AppError InfoResult
  info req = do
    client ← dial c req.redis req.db
    let section : Option Str = if is_empty (trim_space req.section) then none else some req.section
    res ← or_failed (str "redis info") (client.info section)
    ok (record { info = res })

  unfoldable pub role : RoleRequest → Result AppError RoleResult
  role req = do
    client ← dial c req.redis req.db
    raw ← or_failed (str "redis role") client.role
    ok (record { role = role_of raw })

  unfoldable pub db_size : DbsizeRequest → Result AppError DbsizeResult
  db_size req = do
    client ← dial c req.redis req.db
    n ← or_failed (str "redis dbsize") client.db_size
    ok (record { dbsize = n })

  unfoldable pub type : KeyRequest → Result AppError TypeResult
  type req = do
    require_key req.key
    client ← dial c req.redis req.db
    typ ← or_failed (str "redis type") (client.type_of req.key)
    ok (record { key = req.key; key_type = typ })

  unfoldable pub ttl : KeyRequest → Result AppError TtlResult
  ttl req = do
    require_key req.key
    client ← dial c req.redis req.db
    raw ← or_failed (str "redis ttl") (client.ttl req.key)
    ok (record { key = req.key; ttl = raw })

  unfoldable pub exists : KeyRequest → Result AppError ExistsResult
  exists req = do
    require_key req.key
    client ← dial c req.redis req.db
    n ← or_failed (str "redis exists") (client.exists req.key)
    ok (record { key = req.key; exists = ltb_ℤ (pos 0) n })

  unfoldable pub get : KeyRequest → Result AppError GetResult
  get req = do
    require_key req.key
    client ← dial c req.redis req.db
    val ← or_missing (str "redis get") (client.get req.key)
    ok (record { key = req.key; value = val })

  unfoldable pub memory_usage : KeyRequest → Result AppError MemoryUsageResult
  memory_usage req = do
    require_key req.key
    client ← dial c req.redis req.db
    n ← or_missing (str "redis memory usage") (client.memory_usage req.key)
    ok (record { key = req.key; bytes = n })

  unfoldable pub object_encoding : KeyRequest → Result AppError ObjectEncodingResult
  object_encoding req = do
    require_key req.key
    client ← dial c req.redis req.db
    enc ← or_missing (str "redis object encoding") (client.object_encoding req.key)
    ok (record { key = req.key; encoding = enc })

  unfoldable pub slowlog_get : SlowlogGetRequest → Result AppError SlowlogGetResult
  slowlog_get req = do
    cfg ← lookup_instance c req.redis
    count ← clamped (str "redis slowlog_get: count ") (clamp_limit req.count cfg.limit)
    client ← dial c req.redis req.db
    entries ← or_failed (str "redis slowlog get") (client.slow_log_get count)
    ok (record { entries = map slowlog_entry entries; count = pos (length entries) })

  unfoldable pub client_list : ClientListRequest → Result AppError ClientListResult
  client_list req = do
    cfg ← lookup_instance c req.redis
    limit ← clamped (str "redis client_list: ") (clamp_limit req.limit cfg.limit)
    client ← dial c req.redis req.db
    raw ← or_failed (str "redis client list") client.client_list
    let (lines, truncated) = cut limit (split_non_empty raw)
    ok (record { clients = lines; count = pos (length lines); truncated = truncated })

  unfoldable pub config_get : ConfigGetRequest → Result AppError ConfigGetResult
  config_get req = do
    refuse_invalid (is_empty (trim_space req.pattern)) (str "redis config_get: pattern is required")
    client ← dial c req.redis req.db
    vals ← or_failed (str "redis config get") (client.config_get (trim_space req.pattern))
    ok (record { config = vals })

  unfoldable pub card_op :
      Str → KeyRequest → (Client → Str → Reply ℤ) → Result AppError CardinalityResult
  card_op op req fn = do
    require_key req.key
    client ← dial c req.redis req.db
    n ← or_failed (str "redis " ++ op) (fn client req.key)
    ok (record { key = req.key; count = n })

  unfoldable pub hlen : KeyRequest → Result AppError CardinalityResult
  hlen req = card_op (str "hlen") req (λ client key. client.hlen key)

  unfoldable pub llen : KeyRequest → Result AppError CardinalityResult
  llen req = card_op (str "llen") req (λ client key. client.llen key)

  unfoldable pub scard : KeyRequest → Result AppError CardinalityResult
  scard req = card_op (str "scard") req (λ client key. client.scard key)

  unfoldable pub zcard : KeyRequest → Result AppError CardinalityResult
  zcard req = card_op (str "zcard") req (λ client key. client.zcard key)

-- ===== src/Connector/Redis/Hashes.antt =====
-- HGet and HMGet of connector/redis/redis.go. `show` is fmt.Sprint.
use ops_mcp.Connector.Redis.Client.{
  or_failed, or_missing, require_key, require_field, Redis, lookup_instance, dial,
}
use ops_mcp.Connector.Redis.Types.{
  HgetRequest, HgetResult, HmgetRequest, HmgetFieldValue, HmgetResult,
}
use ops_mcp.Config.Load.{default_query_limit}
use ops_mcp.Model.Errors.{AppError, over_limit, invalid, refuse_invalid}
use ops_mcp.Prelude.Value.{Value, is_null}
use ops_mcp.Prelude.{
  none, some, List, [], ◌∷◌, if◌then◌else◌, nat_eq, length, is_nil, ℤ, pos, ltb_ℤ, is_nonpos, Str,
  str, str_eq, is_empty, trim_space, Result, ok, ◌>>=◌, ◌>>◌,
}

unfoldable pub trimmed_fields : List Str → Result AppError (List Str)
trimmed_fields [] = ok []
trimmed_fields (f ∷ fs) =
    refuse_invalid (is_empty (trim_space f)) (str "redis: fields must not contain empty values")
    >> (trimmed_fields fs >>= λ rest. ok (trim_space f ∷ rest))

unfoldable pub normalize_fields : List Str → Result AppError (List Str)
normalize_fields fields =
    refuse_invalid (is_nil fields) (str "redis: fields is required and must be non-empty")
    >> trimmed_fields fields

-- Each field with the value in its place; a value that is nil or was not returned is missing.
unfoldable pub field_values : (Value → Str) → List Str → List Value → List HmgetFieldValue
field_values show [] vals = []
field_values show (f ∷ fs) [] = record { field = f; value = none } ∷ field_values show fs []
field_values show (f ∷ fs) (v ∷ vs) =
    record { field = f; value = if is_null v then none else some (show v) }
    ∷ field_values show fs vs

module _ (c : Redis) where
  unfoldable pub hget : HgetRequest → Result AppError HgetResult
  hget req = do
    require_key req.key
    require_field req.field
    client ← dial c req.redis req.db
    val ← or_missing (str "redis hget") (client.hget req.key req.field)
    ok (record { key = req.key; field = req.field; value = val })

  unfoldable pub hmget : (Value → Str) → HmgetRequest → Result AppError HmgetResult
  hmget show req = do
    require_key req.key
    names ← normalize_fields req.fields
    cfg ← lookup_instance c req.redis
    let max_fields : ℤ = if is_nonpos cfg.limit then default_query_limit else cfg.limit
    if ltb_ℤ max_fields (pos (length names))
        then invalid (over_limit (str "redis hmget") (pos (length names)) max_fields)
        else do
          client ← dial c req.redis req.db
          vals ← or_failed (str "redis hmget") (client.hmget req.key names)
          ok (record {
            key = req.key;
            fields = field_values show names vals;
            count = pos (length (field_values show names vals));
          })

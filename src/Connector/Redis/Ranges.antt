-- ===== src/Connector/Redis/Ranges.antt =====
-- ZRangeSample and LRange of connector/redis/redis.go.
pub mod Slices
use ops_mcp.Connector.Redis.Client.{Client, or_failed, require_key, Redis, lookup_instance, dial}
use ops_mcp.Connector.Redis.Keys.{cut, clamped}
use ops_mcp.Connector.Redis.Types.{
  ZrangeSampleRequest, ZrangeSampleResult, LrangeRequest, LrangeResult,
}
use ops_mcp.Guard.Limits.{clamp_limit}
use ops_mcp.Model.Errors.{AppError}
use ops_mcp.Prelude.Value.{Value}
use ops_mcp.Prelude.{
  Bool, List, [], ◌∷◌, map, nat_eq, length, ℤ, pos, add64, Str, str, str_eq, Dict, Result, ok,
  ◌>>=◌, ◌>>◌,
}

abbrev pub member_of : Value × Value → Dict Value
member_of (member, score) = (str "member", member) ∷ (str "score", score) ∷ []

abbrev pub zrange_result : Str → List (Value × Value) × Bool → ZrangeSampleResult
zrange_result key (zs, truncated) = record {
  key = key;
  members = map member_of zs;
  count = pos (length (map member_of zs));
  truncated = truncated;
}

abbrev pub lrange_result : LrangeRequest → List Str × Bool → LrangeResult
lrange_result req (vals, truncated) = record {
  key = req.key;
  start = req.start;
  values = vals;
  count = pos (length vals);
  truncated = truncated;
}

-- The part of LRange after the connection is open: the sum is one of 64-bit integers.
unfoldable pub lrange_open : Client → LrangeRequest → ℤ → Result AppError LrangeResult
lrange_open client req limit = do
  vals ← or_failed (str "redis lrange") (client.lrange req.key req.start (add64 req.start limit))
  ok (lrange_result req (cut limit vals))

module _ (c : Redis) where
  -- One element more than the limit is asked for, to see whether there are more.
  unfoldable pub zrange_sample : ZrangeSampleRequest → Result AppError ZrangeSampleResult
  zrange_sample req = do
    require_key req.key
    cfg ← lookup_instance c req.redis
    limit ← clamped (str "redis zrange_sample: ") (clamp_limit req.limit cfg.limit)
    client ← dial c req.redis req.db
    zs ← or_failed (str "redis zrange") (client.zrange_with_scores req.key (pos 0) limit)
    ok (zrange_result req.key (cut limit zs))

  unfoldable pub lrange : LrangeRequest → Result AppError LrangeResult
  lrange req = do
    require_key req.key
    cfg ← lookup_instance c req.redis
    limit ← clamped (str "redis lrange: ") (clamp_limit req.limit cfg.limit)
    client ← dial c req.redis req.db
    lrange_open client req limit

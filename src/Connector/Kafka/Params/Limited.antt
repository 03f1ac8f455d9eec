-- ===== src/Connector/Kafka/Params/Limited.antt =====
-- What applyLimit keeps of a list.
use ops_mcp.Prelude.{ℕ, ℤ, ◌≤◌, pos, ◌≤ℤ◌, ◌<ℤ◌, ◌<◌, ◌≡◌, false, ◌↔◌, arith}
use ops_mcp.Connector.Kafka.Params.{apply_limit, configured_limit}

-- At least one element of a list that is not empty, at most the configured limit or 1000, at most
-- the limit asked for where that is positive, and all of the list exactly when it is not truncated.
pub apply_limit_lem :
    (n : ℕ) (cfg_limit req_limit : ℤ)
    → ((apply_limit n cfg_limit req_limit).0 ≤ n)
      × (pos (apply_limit n cfg_limit req_limit).0 ≤ℤ configured_limit cfg_limit)
      × (pos 0 <ℤ req_limit → pos (apply_limit n cfg_limit req_limit).0 ≤ℤ req_limit)
      × (0 < n → 0 < (apply_limit n cfg_limit req_limit).0)
      × (((apply_limit n cfg_limit req_limit).1 ≡ false)
          ↔ ((apply_limit n cfg_limit req_limit).0 ≡ n))
unfolding apply_limit
apply_limit_lem n cfg_limit req_limit = (
  ground arith,
  ground arith,
  (λ h. ground arith),
  (λ h. ground arith),
  ((λ h. ground arith), (λ h. ground arith)),
)

-- ===== src/Connector/Redis/Scan.antt =====
-- Scan and HScan of connector/redis/redis.go. The loop goes on until the server returns cursor 0
-- or the limit is reached: on fuel, with `none` when it runs out.
pub mod Batches
pub mod Loop
pub mod Run
pub mod Results
use ops_mcp.Connector.Redis.Client.{
  Reply, value, nil_reply, failed, Client, or_failed, require_key, Redis, lookup_instance, dial,
}
use ops_mcp.Connector.Redis.Keys.{clamped}
use ops_mcp.Connector.Redis.Types.{
  ScanRequest, ScanResult, HscanRequest, HscanFieldValue, HscanResult,
}
use ops_mcp.Guard.Limits.{clamp_limit}
use ops_mcp.Model.Errors.{AppError}
use ops_mcp.Prelude.{
  ℕ, zero, suc, Bool, true, false, not, ◌&&◌, ◌||◌, Option, none, some, List, [], ◌∷◌, ◌++◌,
  if◌then◌else◌, nat_eq, ◌==◌, length, ℤ, pos, leb_ℤ, Str, str, str_eq, Result, ok, err, ◌>>=◌,
  ◌>>◌,
}

-- The cursor, what was collected, and whether something was left out.
abbrev pub Scanned {ℓ} : Type ℓ → Type ℓ
Scanned A = ℕ × List A × Bool

module _ {ℓ} {A : Type ℓ} where
  abbrev pub is_full : ℤ → List A → Bool
  is_full limit found = leb_ℤ limit (pos (length found))

  -- The loop over one batch, which stops at the limit.
  unfoldable pub collect : ℤ → List A → List A → List A × Bool
  collect limit found [] = (found, false)
  collect limit found (k ∷ ks) =
      let rest = collect limit (found ++ k ∷ []) ks in
      if is_full limit found then (found, true) else rest

  -- What the loop returns after a batch, if it ends there.
  abbrev pub ends : ℤ → ℕ → List A × Bool → Bool
  ends limit next (found, truncated) = truncated || (next == 0) || is_full limit found

  abbrev pub scanned : ℤ → ℕ → List A × Bool → Scanned A
  scanned limit next (found, truncated) =
      (next, found, truncated || (is_full limit found && not (next == 0)))

  unfoldable pub scan_loop :
      Str
      → (ℕ → ℕ → Reply (List A × ℕ))
      → ℤ
      → ℕ
      → ℕ
      → ℕ
      → List A
      → Option (Result AppError (Scanned A))
  scan_loop op fetch limit zero calls cursor found = none
  scan_loop op fetch limit (suc fuel) calls cursor found =
      elim (or_failed op (fetch calls cursor)) [
        | err e ↦ some (err e)
        | ok (batch, next) ↦
            let got = collect limit found batch in
            let rest = scan_loop op fetch limit fuel (suc calls) next got.0 in
            if ends limit next got then some (ok (scanned limit next got)) else rest
      ]

-- The fields and values of HSCAN alternate; a last one without a value is dropped.
unfoldable pub pairs : List Str → List HscanFieldValue
pairs [] = []
pairs (f ∷ []) = []
pairs (f ∷ v ∷ rest) = record { field = f; value = v } ∷ pairs rest

abbrev pub paired : Reply (List Str × ℕ) → Reply (List HscanFieldValue × ℕ)
paired (value (batch, next)) = value (pairs batch, next)
paired nil_reply = nil_reply
paired (failed e) = failed e

abbrev pub or_star : Str → Str
or_star [] = str "*"
or_star (a ∷ s) = a ∷ s

abbrev pub scan_result : Scanned Str → ScanResult
scan_result (cursor, found, truncated) = record {
  cursor = cursor;
  keys = found;
  count = pos (length found);
  truncated = truncated;
}

abbrev pub hscan_result : Str → Scanned HscanFieldValue → HscanResult
hscan_result key (cursor, found, truncated) = record {
  key = key;
  cursor = cursor;
  fields = found;
  count = pos (length found);
  truncated = truncated;
}

-- The result of a loop that may have run out of fuel.
abbrev pub map_loop {ℓ κ} :
    {A : Type ℓ} {B : Type κ} → (A → B) → Option (Result AppError A) → Option (Result AppError B)
map_loop f none = none
map_loop f (some (err e)) = some (err e)
map_loop f (some (ok a)) = some (ok (f a))

abbrev pub run_or_stop {ℓ κ} :
    {A : Type ℓ} {B : Type κ}
    → Result AppError A
    → (A → Option (Result AppError B))
    → Option (Result AppError B)
run_or_stop (err e) run = some (err e)
run_or_stop (ok a) run = run a

-- The calls of the client that the loops make.
abbrev pub scan_call : Client → ScanRequest → ℤ → ℕ → ℕ → Reply (List Str × ℕ)
scan_call client req limit calls cursor = client.scan calls cursor (or_star req.pattern) limit

abbrev pub hscan_call : Client → HscanRequest → ℤ → ℕ → ℕ → Reply (List HscanFieldValue × ℕ)
hscan_call client req limit calls cursor =
    paired (client.hscan req.key calls cursor (or_star req.pattern) limit)

module _ (c : Redis) where
  unfoldable pub scan_ready : ScanRequest → Result AppError (Client × ℤ)
  scan_ready req = do
    cfg ← lookup_instance c req.redis
    limit ← clamped (str "redis scan: ") (clamp_limit req.limit cfg.limit)
    client ← dial c req.redis req.db
    ok (client, limit)

  unfoldable pub scan : ℕ → ScanRequest → Option (Result AppError ScanResult)
  scan fuel req = run_or_stop (scan_ready req) λ p.
      map_loop scan_result
        (scan_loop (str "redis scan") (scan_call p.0 req p.1) p.1 fuel 0 req.cursor [])

  unfoldable pub hscan_ready : HscanRequest → Result AppError (Client × ℤ)
  hscan_ready req = do
    require_key req.key
    cfg ← lookup_instance c req.redis
    limit ← clamped (str "redis hscan: ") (clamp_limit req.limit cfg.limit)
    client ← dial c req.redis req.db
    ok (client, limit)

  unfoldable pub hscan : ℕ → HscanRequest → Option (Result AppError HscanResult)
  hscan fuel req = run_or_stop (hscan_ready req) λ p.
      map_loop (hscan_result req.key)
        (scan_loop (str "redis hscan") (hscan_call p.0 req p.1) p.1 fuel 0 req.cursor [])

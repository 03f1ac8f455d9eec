-- ===== src/Connector/Redis/Scan/Results.antt =====
-- Scan of connector/redis/redis.go as a whole.
use ops_mcp.Connector.Redis.Client.{value, Client, or_failed, Redis, lookup_instance, dial}
use ops_mcp.Connector.Redis.Keys.{clamped}
use ops_mcp.Connector.Redis.Scan.{
  Scanned, collect, scan_loop, scan_result, map_loop, scan_call, scan_ready, scan,
}
use ops_mcp.Connector.Redis.Scan.Batches.{room, collect_lem, ltb_below}
use ops_mcp.Connector.Redis.Scan.Loop.{
  EndsWithin, scan_loop_total, some_injective, loop_step, after,
}
use ops_mcp.Connector.Redis.Scan.Run.{Run, Run-of_loop, Run-bound, Run-whole, Fetched}
use ops_mcp.Connector.Redis.Types.{ScanRequest, ScanResult}
use ops_mcp.Guard.Limits.{LimitError, clamp_limit}
use ops_mcp.Model.Errors.{AppError}
use ops_mcp.Model.Redis.{RedisInstance}
use mathlib.Core.Path.{subst}
use ops_mcp.Prelude.{
  ℕ, suc, ◌≤◌, ◌<◌, ◌≡◌, refl, sym, ap, ◌∙◌, inl, inr, true, false, Option, none, some, List, [],
  arith, nat_eq, length, take, ℤ, pos, pos_part, ◌≤ℤ◌, Str, str, str_eq, Result, ok, err,
  ok_injective, Result-cases, >>=-eq-ok,
}

-- A limit that is let through is positive, and the one asked for or less.
clamp_limit_pos :
    (requested max_limit limit : ℤ)
    → clamp_limit requested max_limit ≡ ok limit
    → limit ≡ pos (pos_part limit)
unfolding clamp_limit
clamp_limit_pos requested max_limit limit h = ground arith

clamp_limit_le :
    (requested max_limit limit : ℤ)
    → clamp_limit requested max_limit ≡ ok limit
    → limit ≤ℤ requested
unfolding clamp_limit
clamp_limit_le requested max_limit limit h = ground arith

clamped-ok :
    (op : Str) (r : Result LimitError ℤ) (limit : ℤ) → clamped op r ≡ ok limit → r ≡ ok limit
clamped-ok op (ok n) limit h = ap (λ t. ok t) (ok_injective h)
clamped-ok op (err e) limit h = absurd (cc h)

map_loop-ok {ℓ κ} :
    {A : Type ℓ} {B : Type κ} (f : A → B) (o : Option (Result AppError A)) (b : B)
    → map_loop f o ≡ some (ok b)
    → (a : A) × (o ≡ some (ok a)) × (b ≡ f a)
map_loop-ok f none b h = absurd (cc h)
map_loop-ok f (some (err e)) b h = absurd (cc (some_injective h))
map_loop-ok f (some (ok a)) b h = (a, refl, sym (ok_injective (some_injective h)))

map_loop_total {ℓ κ} :
    {A : Type ℓ} {B : Type κ} (f : A → B) (o : Option (Result AppError A)) (r : Result AppError A)
    → o ≡ some r
    → (out : Result AppError B) × (map_loop f o ≡ some out)
map_loop_total f none r h = absurd (cc h)
map_loop_total f (some (err e)) r h = (err e, refl)
map_loop_total f (some (ok a)) r h = (ok (f a), refl)

collect_over :
    (n : ℕ) (batch : List Str) → n < length batch → collect (pos n) [] batch ≡ (take n batch, true)
collect_over n batch long =
    let empty : room {A = Str} n [] ≡ n = omega arith in
    collect_lem n [] batch
    ∙ rw (empty) (ap (λ b. (take n batch, b)) (ltb_below n (length batch) long))

module _ (c : Redis) (req : ScanRequest) where
  -- What a scan starts with.
  abbrev Ready : Client → ℤ → Type 0
  Ready client limit =
      (r : RedisInstance) × (lookup_instance c req.redis ≡ ok r)
      × (clamp_limit req.limit r.limit ≡ ok limit)
      × (dial c req.redis req.db ≡ ok client)

  scan_ready-ok :
      (client : Client) (limit : ℤ) → scan_ready c req ≡ ok (client, limit) → Ready client limit
  unfolding scan_ready
  scan_ready-ok client limit h =
      let (r, e0, h0) = >>=-eq-ok (lookup_instance c req.redis) _ h in
      let (l, e1, h1) =
        >>=-eq-ok (clamped (str "redis scan: ") (clamp_limit req.limit r.limit)) _ h0 in
      let (k, e2, h2) = >>=-eq-ok (dial c req.redis req.db) _ h1 in
      let same = ok_injective h2 in
      (
        r,
        e0,
        clamped-ok (str "redis scan: ") (clamp_limit req.limit r.limit) l e1
            ∙ ap (λ t. ok t.1) same,
        e2 ∙ ap (λ t. ok t.0) same,
      )

  scan_early : (fuel : ℕ) (e : AppError) → scan_ready c req ≡ err e → scan c fuel req ≡ some (err e)
  unfolding scan
  scan_early fuel e h = rw (h) refl

  scan_late :
      (fuel : ℕ) (client : Client) (limit : ℤ)
      → scan_ready c req ≡ ok (client, limit)
      → scan c fuel req
        ≡ map_loop scan_result
            (scan_loop (str "redis scan") (scan_call client req limit) limit fuel 0 req.cursor [])
  unfolding scan
  scan_late fuel client limit h = rw (h) refl

  -- The run behind a result.
  abbrev Behind : ScanResult → Type 0
  Behind res =
      (client : Client) × (limit : ℤ) × (s : Scanned Str) × Ready client limit
      × Run (scan_call client req limit) (pos_part limit) 0 req.cursor [] s
      × (res ≡ scan_result s)

  scan-Behind : (fuel : ℕ) (res : ScanResult) → scan c fuel req ≡ some (ok res) → Behind res
  scan-Behind fuel res h = elim (Result-cases (scan_ready c req)) [
    | inl (e, early) ↦ absurd (cc (scan_early fuel e early, h))
    | inr ((client, limit), ready) ↦
        let (s, ran, same) =
          map_loop-ok scan_result _ res (sym (scan_late fuel client limit ready) ∙ h) in
        let given = scan_ready-ok client limit ready in
        let p = clamp_limit_pos req.limit (given.0).limit limit given.2 in
        (
          client,
          limit,
          s,
          given,
          Run-of_loop (scan_call client req limit) (pos_part limit) (str "redis scan") fuel 0
              req.cursor [] s
              (ap
                  (λ l.
                    scan_loop (str "redis scan") (scan_call client req limit) l fuel 0 req.cursor
                      [])
                  (sym p)
                ∙ ran),
          same,
        )
  ]

  -- The number of keys that a scan returns is its count, and at most the limit, which is the one
  -- asked for clamped to the maximum of the instance.
  pub scan_bound :
      (fuel : ℕ) (res : ScanResult)
      → scan c fuel req ≡ some (ok res)
      → (r : RedisInstance) × (limit : ℤ) × (lookup_instance c req.redis ≡ ok r)
        × (clamp_limit req.limit r.limit ≡ ok limit)
        × (res.count ≡ pos (length res.keys))
        × (res.count ≤ℤ limit)
        × (limit ≤ℤ req.limit)
  scan_bound fuel res h =
      let (client, limit, s, (r, known, clamp, dialed), run, same) = scan-Behind fuel res h in
      let bound = Run-bound (scan_call client req limit) (pos_part limit) run (omega arith) in
      (
        r,
        limit,
        known,
        clamp,
        rw (same) refl,
        subst (λ t. t.count ≤ℤ limit) (sym same)
            (subst (λ l. pos (length s.1) ≤ℤ l)
              (sym (clamp_limit_pos req.limit r.limit limit clamp)) omega (arith, bound)),
        clamp_limit_le req.limit r.limit limit clamp,
      )

  -- A scan that reports no truncation has ended with cursor 0, and its keys are all that the server
  -- returned from the given cursor on, in order.
  pub scan_whole :
      (fuel : ℕ) (res : ScanResult)
      → scan c fuel req ≡ some (ok res)
      → res.truncated ≡ false
      → (client : Client) × (limit : ℤ) × (dial c req.redis req.db ≡ ok client)
        × (res.cursor ≡ 0)
        × Fetched (scan_call client req limit) 0 req.cursor res.keys
  scan_whole fuel res h full =
      let (client, limit, s, (r, known, clamp, dialed), run, same) = scan-Behind fuel res h in
      let (z, (rest, fetched, eq)) =
        Run-whole (scan_call client req limit) (pos_part limit) run
          (sym (ap (λ t. t.truncated) same) ∙ full) in
      (
        client,
        limit,
        dialed,
        ap (λ t. t.cursor) same ∙ z,
        subst (Fetched (scan_call client req limit) 0 req.cursor) (sym (ap (λ t. t.keys) same ∙ eq))
            fetched,
      )

  -- A scan returns, with fuel for as many calls as the server needs to end the iteration.
  pub scan_total :
      (k fuel : ℕ)
      → ((client : Client) (limit : ℤ)
          → scan_ready c req ≡ ok (client, limit)
          → EndsWithin (scan_call client req limit) k 0 req.cursor)
      → k ≤ fuel
      → (r : Result AppError ScanResult) × (scan c fuel req ≡ some r)
  scan_total k fuel ending le = elim (Result-cases (scan_ready c req)) [
    | inl (e, early) ↦ (err e, scan_early fuel e early)
    | inr ((client, limit), ready) ↦
        let p =
          clamp_limit_pos req.limit ((scan_ready-ok client limit ready).0).limit limit
            (scan_ready-ok client limit ready).2 in
        let (r, returned) =
          scan_loop_total (str "redis scan") (scan_call client req limit) (pos_part limit) k fuel 0
            req.cursor [] (ending client limit ready) le in
        let (out, mapped) = map_loop_total scan_result _ r (
          ap (λ l. scan_loop (str "redis scan") (scan_call client req limit) l fuel 0 req.cursor [])
            p
          ∙ returned) in
        (out, scan_late fuel client limit ready ∙ mapped)
  ]

  -- When the first batch is longer than the limit, a scan returns the part of it that fits, marked
  -- as truncated, together with the cursor that the server gave for after the whole batch.
  pub scan_cut :
      (fuel n next : ℕ) (client : Client) (batch : List Str)
      → scan_ready c req ≡ ok (client, pos n)
      → scan_call client req (pos n) 0 req.cursor ≡ value (batch, next)
      → n < length batch
      → scan c (suc fuel) req ≡ some (ok (scan_result (next, take n batch, true)))
  scan_cut fuel n next client batch ready first long =
      scan_late (suc fuel) client (pos n) ready
      ∙ ap (map_loop scan_result) (
          loop_step (str "redis scan") (scan_call client req (pos n)) n fuel 0 req.cursor [] batch
            next (ap (or_failed (str "redis scan")) first)
          ∙ ap (after (str "redis scan") (scan_call client req (pos n)) n fuel 1 next)
              (collect_over n batch long))

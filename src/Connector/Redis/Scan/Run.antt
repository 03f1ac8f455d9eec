-- ===== src/Connector/Redis/Scan/Run.antt =====
-- The calls of a scan of connector/redis/redis.go as a relation, and what its result holds.
use ops_mcp.Connector.Redis.Client.{Reply, value, or_failed}
use ops_mcp.Connector.Redis.Scan.{Scanned, ends, scanned, scan_loop}
use ops_mcp.Connector.Redis.Scan.Batches.{room, collect_lem}
use ops_mcp.Connector.Redis.Scan.Loop.{
  value_of, after, loop_step, loop_zero, loop_err, some_injective,
}
use mathlib.Core.List.{append_assoc}
use mathlib.Core.Path.{subst}
use ops_mcp.Prelude.{
  ℕ, zero, suc, ◌≤◌, ◌≡◌, refl, sym, ap, ◌∙◌, ◌≢◌, inl, inr, Bool, true, false, some, List, [], ◌∷◌,
  ◌++◌, arith, ltb, Bool-cases, nat_eq, length, take, length-append, length-take, pos, Str, str_eq,
  ok, ok_injective, Result-cases,
}

take_all {ℓ} : {A : Type ℓ} (r : ℕ) (xs : List A) → length xs ≤ r → take r xs ≡ xs
take_all zero [] h = refl
take_all (suc r) [] h = refl
take_all zero (x ∷ xs) h = absurd (omega (arith, h))
take_all (suc r) (x ∷ xs) h = ap (λ t. x ∷ t) (take_all r xs (omega (arith, h)))

module _ {A : Type 0} (fetch : ℕ → ℕ → Reply (List A × ℕ)) where
  -- All that the server returns until it gives the cursor 0.
  pub data Fetched : ℕ → ℕ → List A → Type 0 where
    last :
        {calls cursor : ℕ} {batch : List A}
        → fetch calls cursor ≡ value (batch, 0)
        → Fetched calls cursor batch
    next_batch :
        {calls cursor next : ℕ} {batch rest : List A}
        → fetch calls cursor ≡ value (batch, next)
        → next ≢ 0
        → Fetched (suc calls) next rest
        → Fetched calls cursor (batch ++ rest)

module _ {A : Type 0} (fetch : ℕ → ℕ → Reply (List A × ℕ)) (n : ℕ) where
  -- What the loop has of a batch.
  abbrev pub taken : List A → List A → List A × Bool
  taken found batch = (found ++ take (room n found) batch, ltb (room n found) (length batch))

  -- The calls from one with a number and a cursor on, with what was found before them.
  pub data Run : ℕ → ℕ → List A → Scanned A → Type 0 where
    stop :
        {calls cursor next : ℕ} {found batch : List A} {r : Scanned A}
        → fetch calls cursor ≡ value (batch, next)
        → ends (pos n) next (taken found batch) ≡ true
        → r ≡ scanned (pos n) next (taken found batch)
        → Run calls cursor found r
    go_on :
        {calls cursor next : ℕ} {found batch : List A} {r : Scanned A}
        → fetch calls cursor ≡ value (batch, next)
        → ends (pos n) next (taken found batch) ≡ false
        → Run (suc calls) next (found ++ take (room n found) batch) r
        → Run calls cursor found r

  pub Run-of_loop :
      (op : Str) (fuel calls cursor : ℕ) (found : List A) (r : Scanned A)
      → scan_loop op fetch (pos n) fuel calls cursor found ≡ some (ok r)
      → Run calls cursor found r
  Run-of_loop op zero calls cursor found r h =
      absurd (cc (loop_zero op fetch n calls cursor found, h))
  Run-of_loop op (suc fuel) calls cursor found r h =
      elim (Result-cases (or_failed op (fetch calls cursor))) [
        | inl (e, failing) ↦ absurd (cc (loop_err op fetch n fuel calls cursor found e failing, h))
        | inr ((batch, next), got) ↦
            let step =
              sym h
              ∙ loop_step op fetch n fuel calls cursor found batch next got
              ∙ ap (after op fetch n fuel (suc calls) next) (collect_lem n found batch) in
            elim (Bool-cases (ends (pos n) next (taken found batch))) [
              | inl e ↦
                  stop (value_of op fetch n calls cursor (batch, next) got) e
                    (ok_injective (some_injective (step ∙ rw (e) refl)))
              | inr e ↦ go_on (value_of op fetch n calls cursor (batch, next) got) e (
                  Run-of_loop op fuel (suc calls) next (found ++ take (room n found) batch) r
                    (sym (step ∙ rw (e) refl)))
            ]
      ]

  taken_bound :
      (found batch : List A) → length found ≤ n → length (found ++ take (room n found) batch) ≤ n
  taken_bound found batch h =
      ground
        (arith, length-append found (take (room n found) batch), length-take (room n found) batch)

  -- A run does not go past the limit.
  pub Run-bound :
      {calls cursor : ℕ} {found : List A} {r : Scanned A}
      → Run calls cursor found r
      → length found ≤ n
      → length r.1 ≤ n
  Run-bound {found = found} (stop {batch = batch} f e eq) h =
      subst (λ t. length t.1 ≤ n) (sym eq) (taken_bound found batch h)
  Run-bound {found = found} (go_on {batch = batch} f e run) h =
      Run-bound run (taken_bound found batch h)

  stopped_last :
      (next : ℕ) (found batch : List A)
      → ends (pos n) next (taken found batch) ≡ true
      → (scanned (pos n) next (taken found batch)).2 ≡ false
      → next ≡ 0
  stopped_last next found batch e h = ground arith

  stopped_whole :
      (next : ℕ) (found batch : List A)
      → (scanned (pos n) next (taken found batch)).2 ≡ false
      → length batch ≤ room n found
  stopped_whole next found batch h = ground arith

  open_next :
      (next : ℕ) (found batch : List A) → ends (pos n) next (taken found batch) ≡ false → next ≢ 0
  open_next next found batch e = ground arith

  open_whole :
      (next : ℕ) (found batch : List A)
      → ends (pos n) next (taken found batch) ≡ false
      → length batch ≤ room n found
  open_whole next found batch e = ground arith

  -- What a run found, if it cut nothing off, is all that the server returned.
  pub Run-whole :
      {calls cursor : ℕ} {found : List A} {r : Scanned A}
      → Run calls cursor found r
      → r.2 ≡ false
      → (r.0 ≡ 0) × ((rest : List A) × Fetched fetch calls cursor rest × (r.1 ≡ found ++ rest))
  Run-whole {found = found} (stop {next = next} {batch = batch} f e eq) h =
      let whole = sym (ap (λ t. t.2) eq) ∙ h in
      let z = stopped_last next found batch e whole in
      (
        ap (λ t. t.0) eq ∙ z,
        (
          batch,
          last (f ∙ ap (λ c. value (batch, c)) z),
          ap (λ t. t.1) eq
              ∙ ap (λ t. found ++ t)
                  (take_all (room n found) batch (stopped_whole next found batch whole)),
        ),
      )
  Run-whole {found = found} (go_on {next = next} {batch = batch} f e run) h =
      let (z, (rest, fetched, eq)) = Run-whole run h in
      let same = take_all (room n found) batch (open_whole next found batch e) in
      (
        z,
        (
          batch ++ rest,
          next_batch f (open_next next found batch e) fetched,
          eq ∙ ap (λ t. (found ++ t) ++ rest) same ∙ append_assoc found batch rest,
        ),
      )

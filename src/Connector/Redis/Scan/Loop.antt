-- ===== src/Connector/Redis/Scan/Loop.antt =====
-- The loop of Scan and HScan: its bound, its end, and what a result that is not truncated holds.
use ops_mcp.Connector.Redis.Client.{Reply, value, nil_reply, failed, or_failed}
use ops_mcp.Connector.Redis.Scan.{Scanned, collect, ends, scanned, scan_loop}
use ops_mcp.Model.Errors.{AppError}
use ops_mcp.Prelude.{
  ℕ, zero, suc, ◌≤◌, ◌≡◌, refl, sym, ap, ◌∙◌, ◌⊎◌, inl, inr, Bool, true, Option, none, some, List,
  arith, if◌then◌else◌, Bool-cases, nat_eq, pos, Str, str_eq, Result, ok, err, ok_injective,
  Result-cases,
}

abbrev pub Outcome {ℓ} : Type ℓ → Type ℓ
Outcome A = Option (Result AppError (Scanned A))

pub some_injective {ℓ} : {A : Type ℓ} {a b : A} → some a ≡ some b → a ≡ b
some_injective h = cc

module _ {A : Type 0} (fetch : ℕ → ℕ → Reply (List A × ℕ)) where
  -- The server ends the iteration within a number of calls, as it does for a collection that stays
  -- bounded: with cursor 0 or a failure.
  unfoldable pub EndsWithin : ℕ → ℕ → ℕ → Type 0
  EndsWithin zero calls cursor = ⊥
  EndsWithin (suc k) calls cursor =
      (batch : List A) (next : ℕ)
      → fetch calls cursor ≡ value (batch, next)
      → (next ≡ 0) ⊎ EndsWithin k (suc calls) next

module _ {A : Type 0} (op : Str) (fetch : ℕ → ℕ → Reply (List A × ℕ)) (n : ℕ) where
  -- The value of a successful call.
  pub value_of :
      (calls cursor : ℕ) (p : List A × ℕ)
      → or_failed op (fetch calls cursor) ≡ ok p
      → fetch calls cursor ≡ value p
  value_of calls cursor p h = go (fetch calls cursor) refl
    where
      go : (r : Reply (List A × ℕ)) → fetch calls cursor ≡ r → fetch calls cursor ≡ value p
      go (value q) e = e ∙ ap (λ x. value x) (ok_injective (sym (ap (or_failed op) e) ∙ h))
      go nil_reply e = absurd (cc (sym (ap (or_failed op) e) ∙ h))
      go (failed t) e = absurd (cc (sym (ap (or_failed op) e) ∙ h))

  -- What a batch leaves to say: the loop ends here, or goes on.
  abbrev pub after : ℕ → ℕ → ℕ → List A × Bool → Outcome A
  after fuel calls next got =
      if ends (pos n) next got
      then some (ok (scanned (pos n) next got))
      else scan_loop op fetch (pos n) fuel calls next got.0

  pub loop_step :
      (fuel calls cursor : ℕ) (found batch : List A) (next : ℕ)
      → or_failed op (fetch calls cursor) ≡ ok (batch, next)
      → scan_loop op fetch (pos n) (suc fuel) calls cursor found
        ≡ after fuel (suc calls) next (collect (pos n) found batch)
  unfolding scan_loop
  loop_step fuel calls cursor found batch next h = rw (h, scan_loop) refl

  pub loop_zero :
      (calls cursor : ℕ) (found : List A) → scan_loop op fetch (pos n) 0 calls cursor found ≡ none
  unfolding scan_loop
  loop_zero calls cursor found = refl

  pub loop_err :
      (fuel calls cursor : ℕ) (found : List A) (e : AppError)
      → or_failed op (fetch calls cursor) ≡ err e
      → scan_loop op fetch (pos n) (suc fuel) calls cursor found ≡ some (err e)
  unfolding scan_loop
  loop_err fuel calls cursor found e h = rw (h, scan_loop) refl

  last_ends : (next : ℕ) (got : List A × Bool) → next ≡ 0 → ends (pos n) next got ≡ true
  last_ends next got h = ground arith

  -- Against such a server the loop returns, with fuel for the server's calls.
  pub scan_loop_total :
      (k fuel calls cursor : ℕ) (found : List A)
      → EndsWithin fetch k calls cursor
      → k ≤ fuel
      → (r : Result AppError (Scanned A)) × (scan_loop op fetch (pos n) fuel calls cursor found
          ≡ some r)
  unfolding EndsWithin
  scan_loop_total zero fuel calls cursor found h le = absurd h
  scan_loop_total (suc k) zero calls cursor found h le = absurd (omega (arith, le))
  scan_loop_total (suc k) (suc fuel) calls cursor found h le =
      elim (Result-cases (or_failed op (fetch calls cursor))) [
        | inl (e, failing) ↦ (err e, loop_err fuel calls cursor found e failing)
        | inr ((batch, next), read) ↦
            let got = collect (pos n) found batch in
            let step = loop_step fuel calls cursor found batch next read in
            elim (Bool-cases (ends (pos n) next got)) [
              | inl e ↦ (ok (scanned (pos n) next got), step ∙ rw (e) refl)
              | inr e ↦ elim (h batch next (value_of calls cursor (batch, next) read)) [
                | inl last ↦ absurd (cc (last_ends next got last, e))
                | inr goes ↦
                    let (r, returned) =
                      scan_loop_total k fuel (suc calls) next got.0 goes (omega (arith, le)) in
                    (r, step ∙ rw (e) returned)
              ]
            ]
      ]

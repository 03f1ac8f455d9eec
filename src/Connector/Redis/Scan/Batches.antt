-- ===== src/Connector/Redis/Scan/Batches.antt =====
-- One batch of a scan: what `collect` takes from it.
use ops_mcp.Connector.Redis.Scan.{is_full, collect}
use mathlib.Core.List.{append_assoc, append-nil}
use ops_mcp.Prelude.{
  ℕ, zero, suc, ◌-◌, ◌≤◌, ◌<◌, ◌≡◌, refl, inl, inr, true, false, List, [], ◌∷◌, ◌++◌, arith, ltb,
  Bool-cases, nat_eq, length, take, length-append, pos, str_eq,
}

ltb-suc : (a b : ℕ) → ltb (suc a) (suc b) ≡ ltb a b
ltb-suc a b = ground arith

pub ltb_above : (a b : ℕ) → b ≤ a → ltb a b ≡ false
ltb_above a b h = ground arith

pub ltb_below : (a b : ℕ) → a < b → ltb a b ≡ true
ltb_below a b h = ground arith

module _ {ℓ} {A : Type ℓ} where
  take_nil : (r : ℕ) → take {A = A} r [] ≡ []
  take_nil zero = refl
  take_nil (suc r) = refl

  -- What room the limit leaves.
  abbrev pub room : ℕ → List A → ℕ
  room n found = n - length found

  full_room : (n : ℕ) (found : List A) → is_full (pos n) found ≡ true → room n found ≡ 0
  full_room n found h = ground arith

  next_room :
      (n : ℕ) (found : List A) (k : A)
      → is_full (pos n) found ≡ false
      → room n found ≡ suc (room n (found ++ k ∷ []))
  next_room n found k h = ground (arith, length-append found (k ∷ []))

  -- A batch is taken up to the limit, and what does not fit is reported.
  pub collect_lem :
      (n : ℕ) (found batch : List A)
      → collect (pos n) found batch
        ≡ (found ++ take (room n found) batch, ltb (room n found) (length batch))
  unfolding collect
  collect_lem n found [] =
      cc (take_nil (room n found), append-nil found, ltb_above (room n found) 0 (omega arith))
  collect_lem n found (k ∷ ks) = elim (Bool-cases (is_full (pos n) found)) [
    | inl e ↦
        rw (e, full_room n found e)
          (cc (append-nil found, ltb_below 0 (suc (length ks)) (omega arith)))
    | inr e ↦
        rw (e, next_room n found k e)
          (cc (
            collect_lem n (found ++ k ∷ []) ks,
            append_assoc found (k ∷ []) (take (room n (found ++ k ∷ [])) ks),
            ltb-suc (room n (found ++ k ∷ [])) (length ks),
          ))
  ]

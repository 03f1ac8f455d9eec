-- ===== src/Prelude/Loops.antt =====
-- `for _, x := range xs { ... }` with a body that updates variables and may return an error.
use ops_mcp.Prelude.Results.{Result, ok, ◌>>=◌, ok_injective, >>=-eq-ok}
use mathlib.Core.Path.{◌≡◌, subst}
use mathlib.Core.List.{List, [], ◌∷◌}

module _ {ℓ κ ι} {E : Type ℓ} {A : Type κ} {S : Type ι} (body : A → S → Result E S) where
  unfoldable pub for_each : List A → S → Result E S
  for_each [] s = ok s
  for_each (x ∷ xs) s = body x s >>= λ next. for_each xs next

  -- What every pass keeps holds at the end.
  pub for_each-keeps {o} :
      (P : S → Type o)
      → ((x : A) (s s' : S) → body x s ≡ ok s' → P s → P s')
      → (xs : List A) (s s' : S) → for_each xs s ≡ ok s'
      → P s
      → P s'
  unfolding for_each
  for_each-keeps P keeps [] s s' h p = subst P (ok_injective h) p
  for_each-keeps P keeps (x ∷ xs) s s' h p =
      let (next, done, rest) = >>=-eq-ok (body x s) _ h in
      for_each-keeps P keeps xs next s' rest (keeps x s next done p)

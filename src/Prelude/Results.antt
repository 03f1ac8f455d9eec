-- ===== src/Prelude/Results.antt =====
-- Go's pair of a value and an `error`: a value or an error, and the chaining of fallible steps.
use mathlib.Core.Path.{◌≡◌, refl}
use mathlib.Core.Bool.{Bool, true, false}
use mathlib.Core.Logic.{◌⊎◌, inl, inr}

pub data Result {ℓ κ} (E : Type ℓ) (A : Type κ) : Type (ℓ ⊔ κ) where
  ok : A → Result E A
  err : E → Result E A

pub ok_injective {ℓ κ} :
    {E : Type ℓ} {A : Type κ} {a b : A} → ◌≡◌ {A = Result E A} (ok a) (ok b) → a ≡ b
ok_injective h = cc

pub Result-cases {ℓ κ} :
    {E : Type ℓ} {A : Type κ} (r : Result E A) → ((e : E) × (r ≡ err e)) ⊎ ((a : A) × (r ≡ ok a))
Result-cases (ok a) = inr (a, refl)
Result-cases (err e) = inl (e, refl)

-- `v, err := m; if err != nil { return err }`, then the rest.
infixl 5 ◌>>=◌
abbrev pub ◌>>=◌ {ε κ ι} :
    {Failure : Type ε} {A : Type κ} {B : Type ι}
    → Result Failure A
    → (A → Result Failure B)
    → Result Failure B
err failure >>= rest = err failure
ok v >>= rest = rest v

-- The inversion of a step that did not return early.
pub >>=-eq-ok {ε κ ι} :
    {Failure : Type ε} {A : Type κ} {B : Type ι} (step : Result Failure A)
    (rest : A → Result Failure B) {out : B}
    → (step >>= rest) ≡ ok out
    → (v : A) × (step ≡ ok v) × (rest v ≡ ok out)
>>=-eq-ok (err failure) rest returned = absurd (cc returned)
>>=-eq-ok (ok v) rest returned = (v, refl, returned)

-- `if failed { return err }`.
abbrev pub refuse {ε} : {Failure : Type ε} → Bool → Failure → Result Failure (Unit {0})
refuse true failure = err failure
refuse false failure = ok tt

infixl 5 ◌>>◌
abbrev pub ◌>>◌ {ε ι} :
    {Failure : Type ε} {B : Type ι}
    → Result Failure (Unit {0})
    → Result Failure B
    → Result Failure B
step >> rest = step >>= λ done. rest

-- ===== src/Prelude/Lists.antt =====
-- Lists measured by native numbers, and predicates and tests on all or some elements.
use Prim.Native.Nat.{ℕ, zero, suc, ◌+◌, ◌-◌, min}
use mathlib.Core.Path.{◌≡◌, refl, sym, ap, subst}
use mathlib.Core.Logic.{◌↔◌, ◌⊎◌}
use mathlib.Core.Logic.{inl, inr}
use mathlib.Core.Bool.{Bool, true, false, ◌&&◌, ◌||◌}
use mathlib.Core.List.{List, [], ◌∷◌, ◌++◌, map}
use native.Mathlib.Omega.{arith}
use ops_mcp.Prelude.Tests.{if◌then◌else◌, Bool-cases}

module _ {ℓ} {A : Type ℓ} where
  abbrev pub length : List A → ℕ
  length [] = 0
  length (x ∷ xs) = suc (length xs)

  abbrev pub take : ℕ → List A → List A
  take zero xs = []
  take (suc n) [] = []
  take (suc n) (x ∷ xs) = x ∷ take n xs

  abbrev pub drop : ℕ → List A → List A
  drop zero xs = xs
  drop (suc n) [] = []
  drop (suc n) (x ∷ xs) = drop n xs

  -- Go's `len(xs) == 0`.
  abbrev pub is_nil : List A → Bool
  is_nil [] = true
  is_nil (x ∷ xs) = false

  pub length-append : (xs ys : List A) → length (xs ++ ys) ≡ length xs + length ys
  length-append [] ys = omega arith
  length-append (x ∷ xs) ys = omega (arith, length-append xs ys)

  pub length-take : (n : ℕ) (xs : List A) → length (take n xs) ≡ min n (length xs)
  length-take zero xs = omega arith
  length-take (suc n) [] = omega arith
  length-take (suc n) (x ∷ xs) = omega (arith, length-take n xs)

  pub length-drop : (n : ℕ) (xs : List A) → length (drop n xs) ≡ length xs - n
  length-drop zero xs = omega arith
  length-drop (suc n) [] = omega arith
  length-drop (suc n) (x ∷ xs) = omega (arith, length-drop n xs)

  pub take-append-drop : (n : ℕ) (xs : List A) → take n xs ++ drop n xs ≡ xs
  take-append-drop zero xs = refl
  take-append-drop (suc n) [] = refl
  take-append-drop (suc n) (x ∷ xs) = ap (λ r. x ∷ r) (take-append-drop n xs)

  abbrev pub any : (A → Bool) → List A → Bool
  any p [] = false
  any p (x ∷ xs) = p x || any p xs

  abbrev pub all : (A → Bool) → List A → Bool
  all p [] = true
  all p (x ∷ xs) = p x && all p xs

  -- The sublist that a test keeps.
  unfoldable pub keep : (A → Bool) → List A → List A
  keep p [] = []
  keep p (x ∷ xs) = let rest = keep p xs in if p x then x ∷ rest else rest

module _ {ℓ κ} {A : Type ℓ} (P : A → Type κ) where
  abbrev pub All : List A → Type κ
  All [] = Unit
  All (x ∷ xs) = P x × All xs

  pub All-append : (xs ys : List A) → All xs → All ys → All (xs ++ ys)
  All-append [] ys hx hy = hy
  All-append (x ∷ xs) ys hx hy = (hx.0, All-append xs ys hx.1 hy)

-- Some element satisfies `P`: with its place, so that a proof can point at it.
pub data Some {ℓ κ} {A : Type ℓ} (P : A → Type κ) : List A → Type (ℓ ⊔ κ) where
  here : {x : A} {xs : List A} → P x → Some P (x ∷ xs)
  there : {x : A} {xs : List A} → Some P xs → Some P (x ∷ xs)

module _ {ℓ} {A : Type ℓ} (p : A → Bool) where
  pub all-append : (xs ys : List A) → all p (xs ++ ys) ≡ (all p xs && all p ys)
  all-append [] ys = refl
  all-append (x ∷ xs) ys = ground (arith, all-append xs ys)

  pub any-map {κ} :
      {B : Type κ} (f : B → A) (xs : List B) → any p (map f xs) ≡ any (λ x. p (f x)) xs
  any-map f [] = refl
  any-map f (x ∷ xs) = ap (λ b. p (f x) || b) (any-map f xs)

-- A Boolean test that decides a predicate decides its closure over a list.
module _ {ℓ κ} {A : Type ℓ} (P : A → Type κ) (p : A → Bool) where
  pub any_sound : ((x : A) → p x ≡ true → P x) → (xs : List A) → any p xs ≡ true → Some P xs
  any_sound f [] h = absurd (cc h)
  any_sound f (x ∷ xs) h = elim (Bool-cases (p x)) [
    | inl e ↦ here (f x e)
    | inr e ↦ there (any_sound f xs (rw e at h))
  ]

  pub any_complete : ((x : A) → P x → p x ≡ true) → {xs : List A} → Some P xs → any p xs ≡ true
  any_complete f (here {x} h) = ground (arith, f x h)
  any_complete f (there s) = ground (arith, any_complete f s)

  pub any_iff : ((x : A) → (p x ≡ true) ↔ P x) → (xs : List A) → (any p xs ≡ true) ↔ Some P xs
  any_iff f xs = (any_sound (λ x. (f x).0) xs, λ s. any_complete (λ x. (f x).1) s)

  pub all_sound : ((x : A) → p x ≡ true → P x) → (xs : List A) → all p xs ≡ true → All P xs
  all_sound f [] h = tt
  all_sound f (x ∷ xs) h = (f x (ground arith), all_sound f xs (ground arith))

  pub all_complete : ((x : A) → P x → p x ≡ true) → (xs : List A) → All P xs → all p xs ≡ true
  all_complete f [] h = refl
  all_complete f (x ∷ xs) h = ground (arith, f x h.0, all_complete f xs h.1)

  pub all_iff : ((x : A) → (p x ≡ true) ↔ P x) → (xs : List A) → (all p xs ≡ true) ↔ All P xs
  all_iff f xs = (all_sound (λ x. (f x).0) xs, all_complete (λ x. (f x).1) xs)

-- `x` is in the list; no element comes twice.
module _ {ℓ} {A : Type ℓ} where
  abbrev pub Has : A → List A → Type ℓ
  Has x xs = Some (λ y. y ≡ x) xs

  abbrev pub Distinct : List A → Type ℓ
  Distinct [] = Unit
  Distinct (x ∷ xs) = (¬ Has x xs) × Distinct xs

  pub Has-append_left : (x : A) {xs : List A} (ys : List A) → Has x xs → Has x (xs ++ ys)
  Has-append_left x ys (here e) = here e
  Has-append_left x ys (there h) = there (Has-append_left x ys h)

  pub Has-append_right : (x : A) (xs : List A) {ys : List A} → Has x ys → Has x (xs ++ ys)
  Has-append_right x [] h = h
  Has-append_right x (y ∷ xs) h = there (Has-append_right x xs h)

  pub All-at {κ} : (P : A → Type κ) {x : A} {xs : List A} → All P xs → Has x xs → P x
  All-at P h (here e) = subst P e h.0
  All-at P h (there s) = All-at P h.1 s

  pub Has-append_cases : (x : A) (xs ys : List A) → Has x (xs ++ ys) → Has x xs ⊎ Has x ys
  Has-append_cases x [] ys h = inr h
  Has-append_cases x (y ∷ xs) ys (here e) = inl (here e)
  Has-append_cases x (y ∷ xs) ys (there h) = elim (Has-append_cases x xs ys h) [
    | inl l ↦ inl (there l)
    | inr r ↦ inr r
  ]

  pub Distinct-concat : (xs : List A) (x : A) → Distinct xs → ¬ Has x xs → Distinct (xs ++ x ∷ [])
  Distinct-concat [] x d n = (elim [ ], tt)
  Distinct-concat (y ∷ xs) x (fresh, d) n = (
    λ h. elim (Has-append_cases y xs (x ∷ []) h) [
      | inl l ↦ fresh l
      | inr (here e) ↦ n (here (sym e))
      | inr (there s) ↦ elim s [ ]
    ],
    Distinct-concat xs x d (λ h. n (there h)),
  )

  pub Distinct-append :
      (xs ys : List A)
      → Distinct xs
      → Distinct ys
      → ((x : A) → Has x xs → ¬ Has x ys)
      → Distinct (xs ++ ys)
  Distinct-append [] ys d e apart = e
  Distinct-append (x ∷ xs) ys (fresh, d) e apart = (
    λ h. elim (Has-append_cases x xs ys h) [ inl l ↦ fresh l | inr r ↦ apart x (here refl) r ],
    Distinct-append xs ys d e (λ y h. apart y (there h)),
  )

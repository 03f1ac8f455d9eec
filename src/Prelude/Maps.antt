-- ===== src/Prelude/Maps.antt =====
-- Go maps with string keys, as lists of bindings. Go fixes no order of iteration; a `range` loop
-- runs through the list, and what is stated of every list is stated of every order.
use mathlib.Core.Path.{◌≡◌, refl}
use mathlib.Core.Logic.{◌≢◌, ◌↔◌, inl, inr}
use mathlib.Core.Bool.{Bool, true, false, ◌||◌}
use mathlib.Core.Option.{Option, none, some}
use mathlib.Core.List.{List, [], ◌∷◌, ◌++◌, map}
use native.Mathlib.Omega.{arith}
use ops_mcp.Prelude.Tests.{if◌then◌else◌, ◌==◌, Bool-cases}
use ops_mcp.Prelude.Lists.{Has, here, there}
use ops_mcp.Prelude.Text.{Str, str_eq, str_beq_iff, str_beq_refl}

abbrev pub Dict {ℓ} : Type ℓ → Type ℓ
Dict V = List (Str × V)

module _ {ℓ} {V : Type ℓ} where
  -- v, ok := m[key]
  unfoldable pub lookup : Str → Dict V → Option V
  lookup key [] = none
  lookup key (b ∷ m) = if b.0 == key then some b.1 else lookup key m

  abbrev pub is_some : Option V → Bool
  is_some none = false
  is_some (some v) = true

  -- _, ok := m[key]
  abbrev pub has : Str → Dict V → Bool
  has key m = is_some (lookup key m)

  unfoldable pub keys : Dict V → List Str
  keys = map (λ b. b.0)

  unfoldable pub values : Dict V → List V
  values = map (λ b. b.1)

  -- m[key] = v
  unfoldable pub insert : Str → V → Dict V → Dict V
  insert key v [] = (key, v) ∷ []
  insert key v (b ∷ m) = if b.0 == key then (key, v) ∷ m else b ∷ insert key v m

  pub lookup-insert :
      (new asked : Str) (v : V) (m : Dict V)
      → lookup asked (insert new v m) ≡ (if new == asked then some v else lookup asked m)
  unfolding lookup insert
  lookup-insert new asked v [] = refl
  lookup-insert new asked v (b ∷ m) = ground (
    arith,
    lookup-insert new asked v m,
    str_beq_iff new asked,
    str_beq_iff b.0 asked,
    str_beq_iff b.0 new,
  )

  pub lookup-insert_self : (k : Str) (v : V) (m : Dict V) → lookup k (insert k v m) ≡ some v
  lookup-insert_self k v m = simp (lookup-insert, str_beq_refl)

  pub lookup-insert_ne :
      (k j : Str) (v : V) (m : Dict V) → k ≢ j → lookup j (insert k v m) ≡ lookup j m
  lookup-insert_ne k j v m h = rw lookup-insert (ground (arith, str_beq_iff k j))

  pub has-insert : (k j : Str) (v : V) (m : Dict V) → has j (insert k v m) ≡ ((k == j) || has j m)
  has-insert k j v m = rw lookup-insert (ground arith)

  -- A binding of a new key goes to the end.
  pub insert_new :
      (k : Str) (v : V) (m : Dict V) → has k m ≡ false → insert k v m ≡ m ++ (k, v) ∷ []
  unfolding insert lookup
  insert_new k v [] h = refl
  insert_new k v ((j, w) ∷ m) h = ground (arith, insert_new k v m)

  pub has_iff : (k : Str) (m : Dict V) → (has k m ≡ true) ↔ Has k (keys m)
  unfolding lookup keys
  has_iff k [] = (λ h. absurd (cc h), elim [ ])
  has_iff k ((j, v) ∷ m) = elim (Bool-cases (j == k)) [
    | inl same ↦ rw same (λ _. here ((str_beq_iff j k).0 same), λ _. refl)
    | inr other ↦ rw other (
      λ h. there ((has_iff k m).0 h),
      elim [ here e ↦ absurd (cc (other, (str_beq_iff j k).1 e)) | there s ↦ (has_iff k m).1 s ],
    )
  ]

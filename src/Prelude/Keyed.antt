-- ===== src/Prelude/Keyed.antt =====
-- Maps that bind each value under a key of its own, as the plugin manager and the registry do.
use ops_mcp.Prelude.Tests.{Bool-cases, ◌==◌}
use ops_mcp.Prelude.Lists.{Has, here, there, Distinct}
use ops_mcp.Prelude.Text.{Str, str_eq, str_beq_iff, str_beq_refl}
use ops_mcp.Prelude.Maps.{Dict, lookup, keys, values}
use mathlib.Core.Path.{◌≡◌, ◌∙◌, refl, sym, ap, subst}
use mathlib.Core.Logic.{inl, inr}
use mathlib.Core.Option.{none, some}
use mathlib.Core.List.{List, [], ◌∷◌, map}

pub Has-map {ℓ κ} :
    {A : Type ℓ} {B : Type κ} (f : A → B) {a : A} (xs : List A) → Has a xs → Has (f a) (map f xs)
Has-map f [] h = elim h [ ]
Has-map f (x ∷ xs) (here e) = here (ap f e)
Has-map f (x ∷ xs) (there h) = there (Has-map f xs h)

module _ {ℓ} {A : Type ℓ} (key : A → Str) where
  abbrev pub keyed : List A → Dict A
  keyed xs = map (λ a. (key a, a)) xs

  pub values-keyed : (xs : List A) → values (keyed xs) ≡ xs
  unfolding values
  values-keyed [] = refl
  values-keyed (x ∷ xs) = ap (λ r. x ∷ r) (values-keyed xs)

  pub keys-keyed : (xs : List A) → keys (keyed xs) ≡ map key xs
  unfolding keys
  keys-keyed [] = refl
  keys-keyed (x ∷ xs) = ap (λ r. key x ∷ r) (keys-keyed xs)

  -- A name that is bound once is found where it is bound.
  pub lookup-keyed :
      (xs : List A) (a : A) → Distinct (map key xs) → Has a xs → lookup (key a) (keyed xs) ≡ some a
  unfolding lookup
  lookup-keyed [] a d h = elim h [ ]
  lookup-keyed (x ∷ xs) a (fresh, d) (here e) = rw (← e) (rw (str_beq_refl (key x)) refl)
  lookup-keyed (x ∷ xs) a (fresh, d) (there h) = elim (Bool-cases (key x == key a)) [
    | inl same ↦ absurd (
        fresh (
          subst (λ n. Has n (map key xs)) (sym ((str_beq_iff (key x) (key a)).0 same))
            (Has-map key xs h)))
    | inr other ↦ rw other (lookup-keyed xs a d h)
  ]

  pub lookup-keyed-none :
      (k : Str) (xs : List A) → (¬ Has k (map key xs)) → lookup k (keyed xs) ≡ none
  unfolding lookup
  lookup-keyed-none k [] n = refl
  lookup-keyed-none k (x ∷ xs) n = elim (Bool-cases (key x == k)) [
    | inl same ↦ absurd (n (here ((str_beq_iff (key x) k).0 same)))
    | inr other ↦ rw other (lookup-keyed-none k xs (λ h. n (there h)))
  ]

  -- What is found under a name is one of the values, and has that name.
  pub lookup-keyed-some :
      (k : Str) (xs : List A) (a : A) → lookup k (keyed xs) ≡ some a → Has a xs × (key a ≡ k)
  unfolding lookup
  lookup-keyed-some k [] a h = absurd (cc h)
  lookup-keyed-some k (x ∷ xs) a h = elim (Bool-cases (key x == k)) [
    | inl same ↦
        let e : x ≡ a = cc (rw same at h) in
        (here e, sym (ap key e) ∙ (str_beq_iff (key x) k).0 same)
    | inr other ↦ let (m, e) = lookup-keyed-some k xs a (rw other at h) in (there m, e)
  ]

  pub lookup-keyed-Has :
      (k : Str) (xs : List A) → Has k (map key xs) → ¬ (lookup k (keyed xs) ≡ none)
  unfolding lookup
  lookup-keyed-Has k [] h e = elim h [ ]
  lookup-keyed-Has k (x ∷ xs) (here same) e = absurd (cc (rw ((str_beq_iff (key x) k).1 same) at e))
  lookup-keyed-Has k (x ∷ xs) (there h) e = elim (Bool-cases (key x == k)) [
    | inl same ↦ absurd (cc (rw same at e))
    | inr other ↦ lookup-keyed-Has k xs h (rw other at e)
  ]

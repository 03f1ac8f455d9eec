-- ===== src/Prelude/Sorting.antt =====
-- sort.Slice by a string key: the same elements in ascending order of the key.
use mathlib.Core.List.{Perm}
use mathlib.Core.List.Perm
use ops_mcp.Prelude.{
  Bool, true, false, Has, here, there, List, [], ◌∷◌, if◌then◌else◌, nat_eq, Str, str_eq, str_lt,
  map, Distinct, Bool-cases, inl, sym, inr, ◌≡◌, str_lt_asym,
}

-- On equal keys sort.Slice fixes no order; the keys that the program sorts by are distinct.
module _ {ℓ} {A : Type ℓ} (key : A → Str) where
  place : A → List A → List A
  place a [] = a ∷ []
  place a (b ∷ bs) = if str_lt (key b) (key a) then b ∷ place a bs else a ∷ b ∷ bs

  unfoldable pub sort_by : List A → List A
  unfolding place str_lt
  sort_by [] = []
  sort_by (a ∷ rest) = place a (sort_by rest)

  Has-place : (x a : A) (bs : List A) → Has x (a ∷ bs) → Has x (place a bs)
  unfolding place
  Has-place x a [] h = h
  Has-place x a (b ∷ bs) h = by_order (str_lt (key b) (key a)) (Has-place x a bs) h
    where
      by_order :
          (lt : Bool)
          → (Has x (a ∷ bs) → Has x (place a bs))
          → Has x (a ∷ b ∷ bs)
          → Has x (if lt then b ∷ place a bs else a ∷ b ∷ bs)
      by_order false ih h = h
      by_order true ih (here e) = there (ih (here e))
      by_order true ih (there (here e)) = here e
      by_order true ih (there (there h)) = there (ih (there h))

  Has-of_place : (x a : A) (bs : List A) → Has x (place a bs) → Has x (a ∷ bs)
  unfolding place
  Has-of_place x a [] h = h
  Has-of_place x a (b ∷ bs) h = by_order (str_lt (key b) (key a)) (Has-of_place x a bs) h
    where
      swap : Has x (a ∷ bs) → Has x (a ∷ b ∷ bs)
      swap (here e) = here e
      swap (there h) = there (there h)

      by_order :
          (lt : Bool)
          → (Has x (place a bs) → Has x (a ∷ bs))
          → Has x (if lt then b ∷ place a bs else a ∷ b ∷ bs)
          → Has x (a ∷ b ∷ bs)
      by_order false ih h = h
      by_order true ih (here e) = there (here e)
      by_order true ih (there h) = swap (ih h)

  -- Sorting keeps the elements.
  pub Has-sort_by : (x : A) (xs : List A) → Has x xs → Has x (sort_by xs)
  unfolding sort_by
  Has-sort_by x [] h = h
  Has-sort_by x (a ∷ rest) (here e) = Has-place x a (sort_by rest) (here e)
  Has-sort_by x (a ∷ rest) (there h) = Has-place x a (sort_by rest) (there (Has-sort_by x rest h))

  pub Has-of_sort_by : (x : A) (xs : List A) → Has x (sort_by xs) → Has x xs
  unfolding sort_by
  Has-of_sort_by x [] h = h
  Has-of_sort_by x (a ∷ rest) h = under (Has-of_sort_by x rest) (Has-of_place x a (sort_by rest) h)
    where
      under : (Has x (sort_by rest) → Has x rest) → Has x (a ∷ sort_by rest) → Has x (a ∷ rest)
      under ih (here e) = here e
      under ih (there i) = there (ih i)

  -- Sorting keeps distinct keys distinct.
  Has-key_place :
      (k : Str) (a : A) (bs : List A) → Has k (map key (place a bs)) → Has k (key a ∷ map key bs)
  unfolding place
  Has-key_place k a [] h = h
  Has-key_place k a (b ∷ bs) h = by_order (str_lt (key b) (key a)) (Has-key_place k a bs) h
    where
      swap : Has k (key a ∷ map key bs) → Has k (key a ∷ key b ∷ map key bs)
      swap (here e) = here e
      swap (there h) = there (there h)

      by_order :
          (lt : Bool)
          → (Has k (map key (place a bs)) → Has k (key a ∷ map key bs))
          → Has k (map key (if lt then b ∷ place a bs else a ∷ b ∷ bs))
          → Has k (key a ∷ key b ∷ map key bs)
      by_order false ih h = h
      by_order true ih (here e) = there (here e)
      by_order true ih (there h) = swap (ih h)

  Distinct-place :
      (a : A) (bs : List A) → Distinct (key a ∷ map key bs) → Distinct (map key (place a bs))
  unfolding place
  Distinct-place a [] d = d
  Distinct-place a (b ∷ bs) (new, (fresh, d)) = elim (Bool-cases (str_lt (key b) (key a))) [
    | inl lt ↦ rw lt (
      λ h. elim (Has-key_place (key b) a bs h) [ here e ↦ new (here (sym e)) | there h ↦ fresh h ],
      Distinct-place a bs (λ h. new (there h), d),
    )
    | inr ge ↦ rw ge (new, (fresh, d))
  ]

  pub Has-key_sort_by : (k : Str) (xs : List A) → Has k (map key (sort_by xs)) → Has k (map key xs)
  unfolding sort_by
  Has-key_sort_by k [] h = h
  Has-key_sort_by k (a ∷ rest) h =
      under (Has-key_sort_by k rest) (Has-key_place k a (sort_by rest) h)
    where
      under :
          (Has k (map key (sort_by rest)) → Has k (map key rest))
          → Has k (key a ∷ map key (sort_by rest))
          → Has k (key a ∷ map key rest)
      under ih (here e) = here e
      under ih (there h) = there (ih h)

  pub Distinct-sort_by : (xs : List A) → Distinct (map key xs) → Distinct (map key (sort_by xs))
  unfolding sort_by
  Distinct-sort_by [] d = tt
  Distinct-sort_by (a ∷ rest) (new, d) =
      Distinct-place a (sort_by rest)
        (λ h. new (Has-key_sort_by (key a) rest h), Distinct-sort_by rest d)

  -- The keys ascend: none is below the key before it.
  unfoldable pub Follows : A → List A → Type 0
  Follows a [] = Unit
  Follows a (b ∷ bs) = str_lt (key b) (key a) ≡ false

  unfoldable pub IsAscending : List A → Type 0
  unfolding Follows
  IsAscending [] = Unit
  IsAscending (a ∷ rest) = Follows a rest × IsAscending rest

  Follows-place :
      (c a : A) (bs : List A)
      → str_lt (key a) (key c) ≡ false
      → Follows c bs
      → Follows c (place a bs)
  unfolding place Follows
  Follows-place c a [] h f = h
  Follows-place c a (b ∷ bs) h f = elim (Bool-cases (str_lt (key b) (key a))) [
    | inl lt ↦ rw lt f
    | inr ge ↦ rw ge h
  ]

  IsAscending-place : (a : A) (bs : List A) → IsAscending bs → IsAscending (place a bs)
  unfolding place IsAscending
  IsAscending-place a [] d = (tt, tt)
  IsAscending-place a (b ∷ bs) (f, d) = elim (Bool-cases (str_lt (key b) (key a))) [
    | inl lt ↦
        rw lt (Follows-place b a bs (str_lt_asym (key b) (key a) lt) f, IsAscending-place a bs d)
    | inr ge ↦ rw ge (ge, (f, d))
  ]

  pub sort_by-IsAscending : (xs : List A) → IsAscending (sort_by xs)
  unfolding sort_by IsAscending
  sort_by-IsAscending [] = tt
  sort_by-IsAscending (a ∷ rest) = IsAscending-place a (sort_by rest) (sort_by-IsAscending rest)

  Perm-place : (a : A) (bs : List A) → Perm (place a bs) (a ∷ bs)
  unfolding place
  Perm-place a [] = Perm.refl (a ∷ [])
  Perm-place a (b ∷ bs) = elim (Bool-cases (str_lt (key b) (key a))) [
    | inl lt ↦ rw lt (Perm.trans (Perm.cons b (Perm-place a bs)) (Perm.swap a b bs))
    | inr ge ↦ rw ge (Perm.refl (a ∷ b ∷ bs))
  ]

  pub Perm-sort_by : (xs : List A) → Perm (sort_by xs) xs
  unfolding sort_by
  Perm-sort_by [] = Perm.refl []
  Perm-sort_by (a ∷ rest) =
      Perm.trans (Perm-place a (sort_by rest)) (Perm.cons a (Perm-sort_by rest))

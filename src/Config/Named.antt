-- ===== src/Config/Named.antt =====
-- Loading a list of named entries: what a loop accepts whose body checks an entry, refuses a name
-- that is taken, and binds the name to the entry with its defaults.
use mathlib.Core.List.{append_assoc, append-nil}
use mathlib.Core.Path.{subst}
use ops_mcp.Prelude.{
  ◌≡◌, refl, sym, ap, ◌∙◌, ◌≢◌, ◌↔◌, inl, inr, Bool, true, false, ◌||◌, some, List, [], ◌∷◌, ◌++◌,
  map, arith, Bool-cases, nat_eq, ◌==◌, All, here, there, Has, Distinct, Str, str_beq, str_beq_iff,
  str_eq, is_empty, Dict, lookup, has, insert, has-insert, insert_new, Result, ok, err,
  ok_injective, ◌>>=◌, >>=-eq-ok, refuse, ◌>>◌, for_each,
}

pub or_intro : {a b : Bool} → a ≡ false → b ≡ false → (a || b) ≡ false
or_intro p q = ground arith

pub or_elim : {a b : Bool} → (a || b) ≡ false → (a ≡ false) × (b ≡ false)
or_elim h = ground arith

-- A step that refuses under a condition and else goes on.
pub refuse_iff {ε κ} :
    {E : Type ε} {A : Type κ} (b : Bool) (e : E) (r : Result E A) (a : A)
    → ((refuse b e >>= λ _. r) ≡ ok a) ↔ ((b ≡ false) × (r ≡ ok a))
refuse_iff true e r a = (λ h. absurd (cc h), λ h. absurd (cc h.0))
refuse_iff false e r a = (λ h. (refl, h), λ h. h.1)

pub then_iff {ε κ} :
    {E : Type ε} {A : Type κ} (m : Result E (Unit {0})) (r : Result E A) (a : A)
    → ((m >> r) ≡ ok a) ↔ ((m ≡ ok tt) × (r ≡ ok a))
then_iff (err e) r a = (λ h. absurd (cc h), λ h. absurd (cc h.0))
then_iff (ok done) r a = (λ h. (refl, h), λ h. h.1)

pub not_empty_iff : (s : Str) → (is_empty s ≡ false) ↔ (s ≢ [])
not_empty_iff [] = (λ h. absurd (cc h), λ h. absurd (h refl))
not_empty_iff (c ∷ s) = (λ _. λ h. absurd (cc h), λ _. refl)

pub ne_iff : (s t : Str) → (str_beq s t ≡ false) ↔ (s ≢ t)
ne_iff s t = elim (Bool-cases (str_beq s t)) [
  | inl e ↦ (λ h. absurd (cc (e, h)), λ h. absurd (h ((str_beq_iff s t).0 e)))
  | inr e ↦ (λ _. λ h. absurd (cc (e, (str_beq_iff s t).1 h)), λ _. e)
]

module _ {ℓ κ} {A : Type ℓ} {V : Type κ} (name : A → Str) where
  Fresh : Dict V → List A → Type 0
  Fresh m xs = All (λ x. has (name x) m ≡ false) xs

  Fresh-insert_iff :
      (k : Str) (v : V) (m : Dict V) (xs : List A)
      → Fresh (insert k v m) xs ↔ ((¬ Has k (map name xs)) × Fresh m xs)
  unfolding Fresh
  Fresh-insert_iff k v m [] = (λ _. (elim [ ], tt), λ _. tt)
  Fresh-insert_iff k v m (x ∷ xs) = (
    λ h.
        let split = or_elim (sym (has-insert k (name x) v m) ∙ h.0) in
        let rest = (Fresh-insert_iff k v m xs).0 h.1 in
        (
          elim [ here e ↦ (ne_iff k (name x)).0 split.0 (sym e) | there s ↦ rest.0 s ],
          (split.1, rest.1),
        ),
    λ h. (
      has-insert k (name x) v m ∙ or_intro ((ne_iff k (name x)).1 (λ e. h.0 (here (sym e)))) h.1.0,
      (Fresh-insert_iff k v m xs).1 (λ s. h.0 (there s), h.1.1),
    ),
  )

  module _ {ε ι} {E : Type ε} (Accepts : A → Type ι) (value : A → V)
      (body : A → Dict V → Result E (Dict V))
      (body_iff : (x : A) (m m' : Dict V)
        → (body x m ≡ ok m')
          ↔ (Accepts x × (has (name x) m ≡ false) × (m' ≡ insert (name x) (value x) m))) where
    abbrev entries : List A → Dict V
    entries xs = map (λ x. (name x, value x)) xs

    -- What the loop has done from `m` to `m'`.
    Loaded : List A → Dict V → Dict V → Type (ι ⊔ κ)
    Loaded xs m m' = All Accepts xs × Distinct (map name xs) × Fresh m xs × (m' ≡ m ++ entries xs)

    add_entry :
        (x : A) (xs : List A) (m : Dict V)
        → has (name x) m ≡ false
        → insert (name x) (value x) m ++ entries xs ≡ m ++ entries (x ∷ xs)
    add_entry x xs m new =
        ap (λ l. l ++ entries xs) (insert_new (name x) (value x) m new)
        ∙ append_assoc m ((name x, value x) ∷ []) (entries xs)

    for_each-from : (xs : List A) (m m' : Dict V) → (for_each body xs m ≡ ok m') ↔ Loaded xs m m'
    unfolding for_each Loaded Fresh
    for_each-from [] m m' = (
      λ h. (tt, tt, tt, sym (ok_injective h) ∙ sym (append-nil m)),
      λ h. ap (λ l. ok l) (sym (h.3 ∙ append-nil m)),
    )
    for_each-from (x ∷ xs) m m' = (
      λ h.
          let (m1, done, rest) = >>=-eq-ok (body x m) _ h in
          let (good, new, e1) = (body_iff x m m1).0 done in
          let (goods, apart, fresh, e) = (for_each-from xs m1 m').0 rest in
          let split =
            (Fresh-insert_iff (name x) (value x) m xs).0 (subst (λ d. Fresh d xs) e1 fresh) in
          (
            (good, goods),
            (split.0, apart),
            (new, split.1),
            e ∙ ap (λ d. d ++ entries xs) e1 ∙ add_entry x xs m new,
          ),
      λ h.
          let ((good, goods), (other, apart), (new, fresh), e) = h in
          let m1 = insert (name x) (value x) m in
          rw ((body_iff x m m1).1 (good, new, refl)) (
            (for_each-from xs m1 m').1 (
              goods,
              apart,
              (Fresh-insert_iff (name x) (value x) m xs).1 (other, fresh),
              e ∙ sym (add_entry x xs m new),
            )),
    )

    Fresh-nil : (xs : List A) → Fresh [] xs
    unfolding Fresh lookup
    Fresh-nil [] = tt
    Fresh-nil (x ∷ xs) = (refl, Fresh-nil xs)

    pub for_each_iff :
        (xs : List A) (m' : Dict V)
        → (for_each body xs [] ≡ ok m')
          ↔ (All Accepts xs × Distinct (map name xs) × (m' ≡ map (λ x. (name x, value x)) xs))
    unfolding Loaded
    for_each_iff xs m' = (
      λ h. let (goods, apart, fresh, e) = (for_each-from xs [] m').0 h in (goods, apart, e),
      λ h. (for_each-from xs [] m').1 (h.0, h.1, Fresh-nil xs, h.2),
    )

some_injective {ℓ} : {A : Type ℓ} {a b : A} → some a ≡ some b → a ≡ b
some_injective h = cc

-- A value that the loaded entries hold under some name is that of an entry of the list.
pub lookup-entries {ℓ κ} :
    {A : Type ℓ} {V : Type κ} (name : A → Str) (value : A → V) (xs : List A) (k : Str) (v : V)
    → lookup k (map (λ x. (name x, value x)) xs) ≡ some v
    → (x : A) × Has x xs × (value x ≡ v)
unfolding lookup
lookup-entries name value [] k v h = absurd (cc h)
lookup-entries name value (x ∷ xs) k v h = elim (Bool-cases (name x == k)) [
  | inl same ↦ (x, here refl, some_injective (rw same at h))
  | inr other ↦
      let (y, found, e) = lookup-entries name value xs k v (rw other at h) in (y, there found, e)
]

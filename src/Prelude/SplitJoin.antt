-- ===== src/Prelude/SplitJoin.antt =====
-- strings.Split and strings.Join undo one another.
use mathlib.Core.Path.{subst}
use ops_mcp.Prelude.{
  ℕ, ◌≡◌, refl, ap, ◌∙◌, ◌≢◌, inl, inr, List, [], ◌∷◌, ◌++◌, arith, nat_beq, Bool-cases, nat_eq,
  All, Str, str_eq, split, join,
}

-- No byte of `s` is `b`.
abbrev pub Lacks : ℕ → Str → Type 0
Lacks b s = All (λ c. c ≢ b) s

split_cases : (b : ℕ) (s : Str) → (h : Str) × (t : List Str) × (split b s ≡ h ∷ t)
unfolding split
split_cases b [] = ([], [], refl)
split_cases b (c ∷ s) =
    let (h, t, e) = split_cases b s in
    elim (Bool-cases (nat_beq c b)) [
      | inl same ↦ ([], split b s, rw same refl)
      | inr other ↦ (c ∷ h, t, rw (other, e) refl)
    ]

join-cons_head : (b c : ℕ) (h : Str) (t : List Str) → join b ((c ∷ h) ∷ t) ≡ c ∷ join b (h ∷ t)
unfolding join
join-cons_head b c h [] = refl
join-cons_head b c h (x ∷ t) = refl

pub join-split : (b : ℕ) (s : Str) → join b (split b s) ≡ s
unfolding split join
join-split b [] = refl
join-split b (c ∷ s) =
    let (h, t, e) = split_cases b s in
    let ih : join b (h ∷ t) ≡ s = rw (← e) (join-split b s) in
    elim (Bool-cases (nat_beq c b)) [
      | inl same ↦ rw (same, e) (ground (arith, ih))
      | inr other ↦ rw (other, e) (join-cons_head b c h t ∙ ap (λ r. c ∷ r) ih)
    ]

split_of_Lacks : (b : ℕ) (s : Str) → Lacks b s → split b s ≡ s ∷ []
unfolding split
split_of_Lacks b [] h = refl
split_of_Lacks b (c ∷ s) h = ground (arith, split_of_Lacks b s h.1)

split-append : (b : ℕ) (s t : Str) → Lacks b s → split b (s ++ (b ∷ t)) ≡ s ∷ split b t
unfolding split
split-append b [] t h = ground arith
split-append b (c ∷ s) t h = ground (arith, split-append b s t h.1)

pub split-join :
    (b : ℕ) (x : Str) (xs : List Str) → All (Lacks b) (x ∷ xs) → split b (join b (x ∷ xs)) ≡ x ∷ xs
unfolding join
split-join b x [] h = split_of_Lacks b x h.0
split-join b x (y ∷ ys) h =
    split-append b x (join b (y ∷ ys)) h.0 ∙ ap (λ r. x ∷ r) (split-join b y ys h.1)

-- No segment of a split holds the separator.
pub split-Lacks : (b : ℕ) (s : Str) → All (Lacks b) (split b s)
unfolding split
split-Lacks b [] = (tt, tt)
split-Lacks b (c ∷ s) =
    let (h, t, e) = split_cases b s in
    let ih : All (Lacks b) (h ∷ t) = subst (All (Lacks b)) e (split-Lacks b s) in
    elim (Bool-cases (nat_beq c b)) [
      | inl same ↦ rw same (tt, split-Lacks b s)
      | inr other ↦ rw (other, e) ((ground arith, ih.0), ih.1)
    ]

pub split-ne-nil : (b : ℕ) (s : Str) → split b s ≢ []
split-ne-nil b s e = let (h, t, f) = split_cases b s in cc (e, f)

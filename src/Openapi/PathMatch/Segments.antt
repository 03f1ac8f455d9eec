-- ===== src/Openapi/PathMatch/Segments.antt =====
-- What the comparison of path templates by segments decides.
use mathlib.Core.Bool.{and-eq-true_iff}
use ops_mcp.Prelude.Affix.{has_prefix_iff, has_suffix_iff}
use ops_mcp.Openapi.PathMatch.{is_template_seg, match_segs, match_template_or_exact, split_path}
use ops_mcp.Prelude.{
  ◌≡◌, refl, sym, ap, ◌∙◌, ◌≢◌, ◌↔◌, ◌⊎◌, inl, inr, Bool, true, ◌&&◌, ◌||◌, List, [], ◌∷◌, ◌++◌,
  arith, ltb, Bool-cases, ◌==◌, nat_eq, length, length-append, Str, str, str_beq_iff, str_eq,
}

-- A segment `{name}` with a name that is not empty.
abbrev pub IsTemplate : Str → Type 0
IsTemplate s = (name : Str) × (name ≢ []) × (s ≡ b'{' ∷ (name ++ str "}"))

IsTemplate-parts :
    (s r q : Str) → s ≡ b'{' ∷ r → s ≡ q ++ str "}" → ltb 2 (length s) ≡ true → IsTemplate s
IsTemplate-parts s r [] e f h = absurd (ground (arith, e, f))
IsTemplate-parts s r (c ∷ name) e f h = (name, λ n. ground (arith, ap length f, ap length n), cc)

long_template : (name : Str) → name ≢ [] → ltb 2 (length (b'{' ∷ (name ++ str "}"))) ≡ true
long_template [] h = absurd (h refl)
long_template (c ∷ name) h = ground (arith, length-append name (str "}"))

pub is_template_seg_iff : (s : Str) → (is_template_seg s ≡ true) ↔ IsTemplate s
unfolding is_template_seg
is_template_seg_iff s = (
  λ h.
      let (r, e) = (has_prefix_iff s (str "{")).0 (ground arith) in
      let (q, f) = (has_suffix_iff s (str "}")).0 (ground arith) in
      IsTemplate-parts s r q e f (ground arith),
  λ t.
      let starts = (has_prefix_iff s (str "{")).1 (t.0 ++ str "}", t.2) in
      let ends = (has_suffix_iff s (str "}")).1 (b'{' ∷ t.0, t.2) in
      let long : ltb 2 (length s) ≡ true = rw t.2 (long_template t.0 t.1) in
      rw (starts, ends, long) refl,
)

-- A pattern's segment stands for a path's if either is a template or they are the same.
abbrev pub SegMatches : Str → Str → Type 0
SegMatches p o = IsTemplate p ⊎ (IsTemplate o ⊎ (p ≡ o))

abbrev pub Aligned : List Str → List Str → Type 0
Aligned [] [] = Unit
Aligned (p ∷ ps) (o ∷ os) = SegMatches p o × Aligned ps os
Aligned _ _ = ⊥

abbrev seg_test : Str → Str → Bool
seg_test p o = is_template_seg p || (is_template_seg o || p == o)

seg_test_iff : (p o : Str) → (seg_test p o ≡ true) ↔ SegMatches p o
seg_test_iff p o =
    let tp = is_template_seg_iff p in
    let to = is_template_seg_iff o in
    let eq = str_beq_iff p o in
    (
      λ h. elim (Bool-cases (is_template_seg p)) [
        | inl y ↦ inl (tp.0 y)
        | inr n ↦ elim (Bool-cases (is_template_seg o)) [
          | inl y ↦ inr (inl (to.0 y))
          | inr m ↦ inr (inr (eq.0 (ground arith)))
        ]
      ],
      elim [
        | inl t ↦ ground (arith, tp.1 t)
        | inr (inl t) ↦ ground (arith, to.1 t)
        | inr (inr e) ↦ ground (arith, eq.1 e)
      ],
    )

match_segs-cons :
    (p o : Str) (ps os : List Str) → match_segs (p ∷ ps) (o ∷ os) ≡ seg_test p o && match_segs ps os
unfolding match_segs
match_segs-cons p o ps os = ground arith

match_segs_iff :
    (ps os : List Str) → ((length ps ≡ length os) × (match_segs ps os ≡ true)) ↔ Aligned ps os
unfolding match_segs
match_segs_iff [] [] = (λ _. tt, λ _. (refl, refl))
match_segs_iff [] (o ∷ os) = (λ h. absurd (omega (arith, h.0)), λ h. absurd h)
match_segs_iff (p ∷ ps) [] = (λ h. absurd (omega (arith, h.0)), λ h. absurd h)
match_segs_iff (p ∷ ps) (o ∷ os) =
    let ih = match_segs_iff ps os in
    let here = seg_test_iff p o in
    let step = match_segs-cons p o ps os in
    (
      λ h.
          let both = (and-eq-true_iff _ _).0 (sym step ∙ h.1) in
          (here.0 both.0, ih.0 (omega (arith, h.0), both.1)),
      λ a.
          let rest = ih.1 a.1 in
          (omega (arith, rest.0), step ∙ (and-eq-true_iff _ _).1 (here.1 a.0, rest.1)),
    )

-- A pattern with no `^`, `*` or `?` matches a path exactly when the two have the same number of
-- segments and each pair of segments is equal or has a template `{name}` on either side.
pub match_template_or_exact_iff :
    (pattern path : Str)
    → (match_template_or_exact pattern path ≡ true) ↔ Aligned (split_path pattern) (split_path path)
unfolding match_template_or_exact
match_template_or_exact_iff pattern path =
    let segs = match_segs_iff (split_path pattern) (split_path path) in
    (λ h. segs.0 (ground arith), λ a. let r = segs.1 a in ground (arith, r.0, r.1))

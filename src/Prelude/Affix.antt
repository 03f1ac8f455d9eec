-- ===== src/Prelude/Affix.antt =====
-- What the tests strings.HasPrefix and strings.HasSuffix decide, and the trimming by one affix.
use mathlib.Core.List.{reverse-cons, reverse, reverse-append, reverse-reverse}
use ops_mcp.Prelude.{
  ◌≡◌, refl, sym, ap, ◌∙◌, ◌↔◌, true, List, [], ◌∷◌, ◌++◌, arith, nat_eq, length, drop,
  length-append, Str, str_eq, has_prefix, has_suffix, trim_prefix, trim_suffix,
}

pub has_prefix_iff : (s t : Str) → (has_prefix s t ≡ true) ↔ ((r : Str) × (s ≡ t ++ r))
unfolding has_prefix
has_prefix_iff s [] = (λ _. (s, refl), λ _. refl)
has_prefix_iff [] (d ∷ t) = (λ h. absurd (cc h), λ e. absurd (cc (e.1)))
has_prefix_iff (c ∷ s) (d ∷ t) =
    let ih = has_prefix_iff s t in
    (
      λ h. let (r, e) = ih.0 (ground arith) in (r, ground (arith, e)),
      λ e. let rest = ih.1 (e.0, cc (e.1)) in ground (arith, rest, e.1),
    )

length-reverse {ℓ} : {A : Type ℓ} (xs : List A) → length (reverse xs) ≡ length xs
length-reverse [] = refl
length-reverse (x ∷ xs) =
    ap length (reverse-cons x xs)
    ∙ length-append (reverse xs) (x ∷ [])
    ∙ omega (arith, length-reverse xs)

drop-append {ℓ} : {A : Type ℓ} (xs ys : List A) → drop (length xs) (xs ++ ys) ≡ ys
drop-append [] ys = refl
drop-append (x ∷ xs) ys = drop-append xs ys

pub has_prefix-append : (t r : Str) → has_prefix (t ++ r) t ≡ true
has_prefix-append t r = (has_prefix_iff (t ++ r) t).1 (r, refl)

pub trim_prefix-append : (t r : Str) → trim_prefix (t ++ r) t ≡ r
unfolding trim_prefix
trim_prefix-append t r = rw (has_prefix-append t r) (drop-append t r)

pub has_suffix_iff : (s t : Str) → (has_suffix s t ≡ true) ↔ ((r : Str) × (s ≡ r ++ t))
unfolding has_suffix
has_suffix_iff s t = (
  λ h.
      let (r, e) = (has_prefix_iff (reverse s) (reverse t)).0 h in
      (reverse r, sym (reverse-reverse s) ∙ ap reverse e ∙ simp (reverse-append, reverse-reverse)),
  λ e.
      (has_prefix_iff (reverse s) (reverse t)).1
        (reverse e.0, ap reverse e.1 ∙ reverse-append e.0 t),
)

pub trim_suffix-append : (r t : Str) → trim_suffix (r ++ t) t ≡ r
unfolding trim_suffix
trim_suffix-append r t = rw ((has_suffix_iff (r ++ t) t).1 (r, refl)) (
    ap (λ u. reverse (drop (length t) u)) (reverse-append r t)
    ∙ ap reverse (
        ap (λ n. drop n (reverse t ++ reverse r)) (sym (length-reverse t))
        ∙ drop-append (reverse t) (reverse r))
    ∙ reverse-reverse r)

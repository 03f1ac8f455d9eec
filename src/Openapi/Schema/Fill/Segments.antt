-- ===== src/Openapi/Schema/Fill/Segments.antt =====
-- The filled path segment by segment, and when filling fails.
use mathlib.Core.Path.{subst}
use ops_mcp.Prelude.Value.{Value, given}
use ops_mcp.Prelude.SplitJoin.{Lacks, split-join, split-Lacks, split-ne-nil}
use ops_mcp.Prelude.Affix.{trim_prefix-append, trim_suffix-append}
use ops_mcp.Openapi.PathMatch.{is_template_seg}
use ops_mcp.Openapi.PathMatch.Segments.{IsTemplate, is_template_seg_iff}
use ops_mcp.Openapi.Schema.Fill.{template_name, fill_segs, fill_path}
use ops_mcp.Prelude.{
  ◌≡◌, refl, sym, ap, ◌∙◌, ◌≢◌, ◌↔◌, ◌⊎◌, inl, inr, some, List, [], ◌∷◌, ◌++◌, arith, Bool-cases,
  Option-cases, nat_eq, All, Str, str, str_eq, split, join, Dict, ok, >>=-eq-ok, ok_injective,
}

template_name_lem : (name : Str) → template_name (b'{' ∷ (name ++ str "}")) ≡ name
unfolding template_name
template_name_lem name =
    rw (trim_prefix-append (str "{") (name ++ str "}")) (trim_suffix-append name (str "}"))

pub template_name-IsTemplate : {seg : Str} (t : IsTemplate seg) → template_name seg ≡ t.0
template_name-IsTemplate t = rw t.2 (template_name_lem t.0)

module _ (sprint : Value → Str) (args : Dict Value) where
  -- A template segment gives way to the text of its argument, any other stays.
  abbrev pub Filled : Str → Str → Type 0
  Filled seg out =
      ((t : IsTemplate seg) × (v : Value) × (given t.0 args ≡ some v) × (out ≡ sprint v))
      ⊎ ((¬ IsTemplate seg) × (out ≡ seg))

  abbrev pub FilledAll : List Str → List Str → Type 0
  FilledAll [] [] = Unit
  FilledAll (seg ∷ segs) (out ∷ outs) = Filled seg out × FilledAll segs outs
  FilledAll _ _ = ⊥

  -- The template segment has an argument that is not nil.
  abbrev pub IsGiven : Str → Type 0
  IsGiven seg = (t : IsTemplate seg) → (v : Value) × (given t.0 args ≡ some v)

  fill_segs_sound :
      (segs outs : List Str) → fill_segs sprint segs args ≡ ok outs → FilledAll segs outs
  unfolding fill_segs
  fill_segs_sound [] outs h = rw (← ok_injective h) tt
  fill_segs_sound (seg ∷ segs) outs h = elim (Bool-cases (is_template_seg seg)) [
    | inl yes_template ↦ elim (Option-cases (given (template_name seg) args)) [
      | inl missing ↦ absurd (ground (arith, yes_template, missing))
      | inr (v, found) ↦
          let (rest, done, same) =
            >>=-eq-ok (fill_segs sprint segs args) (λ done. ok (sprint v ∷ done))
              (rw (yes_template, found, fill_segs) at h) in
          let t = (is_template_seg_iff seg).0 yes_template in
          rw (← ok_injective same) (
            inl (t, v, rw (← template_name-IsTemplate t) found, refl),
            fill_segs_sound segs rest done,
          )
    ]
    | inr plain ↦
        let (rest, done, same) =
          >>=-eq-ok (fill_segs sprint segs args) (λ done. ok (seg ∷ done))
            (rw (plain, fill_segs) at h) in
        rw (← ok_injective same) (
          inr (λ t. cc (plain, (is_template_seg_iff seg).1 t), refl),
          fill_segs_sound segs rest done,
        )
  ]

  fill_segs_total :
      (segs : List Str)
      → All IsGiven segs
      → (outs : List Str) × (fill_segs sprint segs args ≡ ok outs)
  unfolding fill_segs
  fill_segs_total [] h = ([], refl)
  fill_segs_total (seg ∷ segs) (first, later) =
      let (outs, e) = fill_segs_total segs later in
      elim (Bool-cases (is_template_seg seg)) [
        | inl y ↦
            let t = (is_template_seg_iff seg).0 y in
            let (v, found) = first t in
            let f : given (template_name seg) args ≡ some v =
              rw (template_name-IsTemplate t) found in
            (sprint v ∷ outs, ground (arith, y, f, e))
        | inr n ↦ (seg ∷ outs, ground (arith, n, e))
      ]

  FilledAll-IsGiven : (segs outs : List Str) → FilledAll segs outs → All IsGiven segs
  FilledAll-IsGiven [] [] h = tt
  FilledAll-IsGiven [] (o ∷ os) h = tt
  FilledAll-IsGiven (seg ∷ segs) [] h = absurd h
  FilledAll-IsGiven (seg ∷ segs) (o ∷ os) (first, later) = (
    elim first [
      | inl (t, v, found, _) ↦ λ t'. (
        v,
        ap (λ n. given n args) (sym (template_name-IsTemplate t') ∙ template_name-IsTemplate t)
            ∙ found,
      )
      | inr (plain, _) ↦ λ t. absurd (plain t)
    ],
    FilledAll-IsGiven segs os later,
  )

  FilledAll-Lacks :
      ((name : Str) (v : Value) → given name args ≡ some v → Lacks b'/' (sprint v))
      → (segs outs : List Str) → All (Lacks b'/') segs
      → FilledAll segs outs
      → All (Lacks b'/') outs
  FilledAll-Lacks clean [] [] h f = tt
  FilledAll-Lacks clean [] (o ∷ os) h f = absurd f
  FilledAll-Lacks clean (seg ∷ segs) [] h f = absurd f
  FilledAll-Lacks clean (seg ∷ segs) (o ∷ os) (first, later) (f, fs) = (
    elim f [ inl (t, v, found, e) ↦ rw e (clean t.0 v found) | inr (_, e) ↦ rw e first ],
    FilledAll-Lacks clean segs os later fs,
  )

-- Filling fails only for want of an argument: there is a filled path exactly when each template
-- segment `{name}` of the path has an argument of that name that is not nil.
pub fill_path_iff :
    (sprint : Value → Str) (template : Str) (args : Dict Value)
    → ((p : Str) × (fill_path sprint template args ≡ ok p))
      ↔ All (IsGiven sprint args) (split b'/' template)
unfolding fill_path
fill_path_iff sprint template args = (
  λ r.
      let (outs, filled, _) = >>=-eq-ok (fill_segs sprint (split b'/' template) args) _ r.1 in
      FilledAll-IsGiven sprint args _ outs (fill_segs_sound sprint args _ outs filled),
  λ g.
      let (outs, filled) = fill_segs_total sprint args (split b'/' template) g in
      (join b'/' outs, rw filled refl),
)

FilledAll-ne-nil :
    (sprint : Value → Str) (args : Dict Value) (segs outs : List Str)
    → segs ≢ []
    → FilledAll sprint args segs outs
    → (o : Str) × (os : List Str) × (outs ≡ o ∷ os)
FilledAll-ne-nil sprint args [] outs n f = absurd (n refl)
FilledAll-ne-nil sprint args (seg ∷ segs) [] n f = absurd f
FilledAll-ne-nil sprint args (seg ∷ segs) (o ∷ os) n f = (o, os, refl)

-- If the text of no argument holds a slash, the filled path has the segments of the template, one
-- for one: each `{name}` is replaced by the text of its argument and every other one is as it was.
pub fill_path_segments :
    (sprint : Value → Str) (template : Str) (args : Dict Value) (p : Str)
    → ((name : Str) (v : Value) → given name args ≡ some v → Lacks b'/' (sprint v))
    → fill_path sprint template args ≡ ok p
    → FilledAll sprint args (split b'/' template) (split b'/' p)
unfolding fill_path
fill_path_segments sprint template args p clean h =
    let segs = split b'/' template in
    let (outs, filled, same) = >>=-eq-ok (fill_segs sprint segs args) _ h in
    let f = fill_segs_sound sprint args segs outs filled in
    let (o, os, e) = FilledAll-ne-nil sprint args segs outs (split-ne-nil b'/' template) f in
    let lacks = FilledAll-Lacks sprint args clean segs outs (split-Lacks b'/' template) f in
    let back : split b'/' p ≡ outs =
      ap (split b'/') (sym (ok_injective same))
      ∙ ap (λ l. split b'/' (join b'/' l)) e
      ∙ split-join b'/' o os (subst (All (Lacks b'/')) e lacks)
      ∙ sym e in
    subst (FilledAll sprint args segs) (sym back) f

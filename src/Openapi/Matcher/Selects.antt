-- ===== src/Openapi/Matcher/Selects.antt =====
-- Which operations the compiled discovery rules select, against a description by the rules alone.
use mathlib.Core.Path.{subst}
use mathlib.Core.Option.{some-injective}
use ops_mcp.Openapi.Operation.{Operation}
use ops_mcp.Model.Api.{DiscoveryRule, ApiDiscovery}
use ops_mcp.Openapi.PathMatch.{Engine, match_path}
use ops_mcp.Openapi.Matcher.{
  FieldMatcher, always, operation_id, RuleMatcher, DiscoveryMatcher, RuleError, DiscoveryError,
  compile_all, path_hit, match_field, id_matchers, method_matchers, path_matchers, tag_matchers,
  new_rule_matcher, match_rule, match_or, rule_matchers, new_discovery_matcher, match_discovery,
  validate_path_patterns, in_include, in_exclude,
}
use ops_mcp.Prelude.{
  ℕ, ◌+◌, ◌≡◌, refl, sym, ap, ◌∙◌, ◌↔◌, ◌⊎◌, inl, inr, Bool, true, false, not, ◌&&◌, ◌||◌, some,
  List, [], ◌∷◌, ◌++◌, arith, if◌then◌else◌, Bool-cases, Option-cases, ◌==◌, nat_eq, is_nil, any,
  all, Some, here, there, all-append, any-map, any_iff, Str, str_beq_iff, str_eq, to_upper, ok,
  >>=-eq-ok, Result-cases, ok_injective,
}

-- A field that lists nothing puts no condition; else one of its entries has to hold.
abbrev pub Field : (Str → Type 0) → List Str → Type 0
Field P xs = (xs ≡ []) ⊎ Some P xs

-- A rule's matcher for a field that lists something is its only condition.
listed_iff :
    {Q : Type 0} (x : Str) (xs : List Str) (b : Bool)
    → (b ≡ true) ↔ Q
    → ((b && true) ≡ true) ↔ ((x ∷ xs ≡ []) ⊎ Q)
listed_iff x xs b i =
    (λ h. inr (i.0 (ground arith)), elim [ inl n ↦ absurd (cc n) | inr q ↦ ground (arith, i.1 q) ])

false_of_ne : (b : Bool) → ¬ (b ≡ true) → b ≡ false
false_of_ne true h = absurd (h refl)
false_of_ne false h = refl

and4_iff :
    (a b c d : Bool)
    → ((a && (b && (c && d))) ≡ true) ↔ ((a ≡ true) × (b ≡ true) × (c ≡ true) × (d ≡ true))
and4_iff a b c d = ground arith

any-cons_iff {ℓ} :
    {A : Type 0} (P : A → Type ℓ) (x : A) (xs : List A) (b bs : Bool)
    → (b ≡ true) ↔ P x
    → (bs ≡ true) ↔ Some P xs
    → ((b || bs) ≡ true) ↔ Some P (x ∷ xs)
any-cons_iff P x xs b bs i is = (
  λ h. elim (Bool-cases b) [ inl t ↦ here (i.0 t) | inr f ↦ there (is.0 (ground arith)) ],
  elim [ here p ↦ ground (arith, i.1 p) | there s ↦ ground (arith, is.1 s) ],
)

module _ (e : Engine) (unicode : Str → Str) (op : Operation) where
  abbrev pub IdHolds : Str → Type 0
  IdHolds p = (re : Str → Bool) × (e.compile p ≡ some re) × (re op.operation_id ≡ true)

  abbrev pub MethodHolds : Str → Type 0
  MethodHolds m = to_upper unicode m ≡ to_upper unicode op.method

  abbrev pub PathHolds : Str → Type 0
  PathHolds p = match_path e p op.path ≡ some true

  -- A tag of the operation is one of those listed.
  abbrev pub TagHolds : List Str → Type 0
  TagHolds tags = Some (λ t. Some (λ u. u ≡ t) tags) op.tags

  -- The fields of a rule that are given all have to hold.
  pub record RuleHolds (rule : DiscoveryRule) : Type 0 where
    pub ids : Field IdHolds rule.operation_ids
    pub methods : Field MethodHolds rule.methods
    pub paths : Field PathHolds rule.paths
    pub tags : (rule.tags ≡ []) ⊎ TagHolds rule.tags

  -- Some include rule holds, or there is none; and no exclude rule holds.
  pub record Exposed (d : ApiDiscovery) : Type 0 where
    pub included : (d.include ≡ []) ⊎ Some RuleHolds d.include
    pub not_excluded : ¬ Some RuleHolds d.exclude

  compiled_iff :
      (p : Str) (ps : List Str) (re : Str → Bool) (rs : List (Str → Bool))
      → e.compile p ≡ some re
      → (any (λ re. re op.operation_id) rs ≡ true) ↔ Some IdHolds ps
      → (any (λ re. re op.operation_id) (re ∷ rs) ≡ true) ↔ Some IdHolds (p ∷ ps)
  compiled_iff p ps re rs compiled ih = (
    λ h. elim (Bool-cases (re op.operation_id)) [
      | inl hit ↦ here (re, compiled, hit)
      | inr miss ↦ there (ih.0 (ground arith))
    ],
    back,
  )
    where
      back : Some IdHolds (p ∷ ps) → any (λ re. re op.operation_id) (re ∷ rs) ≡ true
      back (here (r, c, t)) = ground (
        arith,
        ap (λ (f : Str → Bool). f op.operation_id) (some-injective _ _ (sym compiled ∙ c)),
      )
      back (there s) = ground (arith, ih.1 s)

  compile_all_iff :
      (ps : List Str) (res : List (Str → Bool))
      → compile_all e ps ≡ ok res
      → (any (λ re. re op.operation_id) res ≡ true) ↔ Some IdHolds ps
  unfolding compile_all
  compile_all_iff [] res h = rw (← ok_injective h) (λ b. absurd (cc b), elim [ ])
  compile_all_iff (p ∷ ps) res h = elim (Option-cases (e.compile p)) [
    | inl failed ↦ absurd (ground (arith, failed))
    | inr (re, compiled) ↦
        let (rs, rest, same) =
          >>=-eq-ok (compile_all e ps) (λ rs. ok (re ∷ rs)) (rw (compiled, compile_all) at h) in
        rw (← ok_injective same) (compiled_iff p ps re rs compiled (compile_all_iff ps rs rest))
  ]

  id_matchers_iff :
      (ps : List Str) (ms : List FieldMatcher)
      → id_matchers e unicode ps ≡ ok ms
      → (all (λ m. match_field e unicode m op) ms ≡ true) ↔ Field IdHolds ps
  unfolding id_matchers match_field
  id_matchers_iff [] ms h = rw (← ok_injective h) (λ _. inl refl, λ _. refl)
  id_matchers_iff (p ∷ ps) ms h =
      let (m, made, same) = >>=-eq-ok _ _ h in
      let (res, compiled, same') = >>=-eq-ok _ _ made in
      let q : operation_id res ∷ [] ≡ ms =
        ap (λ x. x ∷ []) (ok_injective same') ∙ ok_injective same in
      rw (← q) (listed_iff p ps _ (compile_all_iff (p ∷ ps) res compiled))

  method_matchers_iff :
      (xs : List Str)
      → (all (λ m. match_field e unicode m op) (method_matchers e unicode xs) ≡ true)
        ↔ Field MethodHolds xs
  unfolding method_matchers match_field
  method_matchers_iff [] = (λ _. inl refl, λ _. refl)
  method_matchers_iff (x ∷ xs) = listed_iff x xs _ (
      subst (λ b. (b ≡ true) ↔ Some MethodHolds (x ∷ xs))
        (sym (any-map (λ m. m == to_upper unicode op.method) (to_upper unicode) (x ∷ xs)))
        (any_iff MethodHolds (λ m. to_upper unicode m == to_upper unicode op.method)
          (λ m. str_beq_iff _ _) (x ∷ xs)))

  path_matchers_iff :
      (xs : List Str) (ms : List FieldMatcher)
      → path_matchers e unicode xs ≡ ok ms
      → (all (λ m. match_field e unicode m op) ms ≡ true) ↔ Field PathHolds xs
  unfolding path_matchers match_field path_hit
  path_matchers_iff [] ms h = rw (← ok_injective h) (λ _. inl refl, λ _. refl)
  path_matchers_iff (p ∷ ps) ms h =
      let (_, _, same) = >>=-eq-ok (validate_path_patterns e (p ∷ ps)) _ h in
      rw (← ok_injective same) (
        listed_iff p ps _
          (any_iff PathHolds (λ q. path_hit e q op.path) (λ q. ground arith) (p ∷ ps)))

  tag_matchers_iff :
      (xs : List Str)
      → (all (λ m. match_field e unicode m op) (tag_matchers e unicode xs) ≡ true)
        ↔ ((xs ≡ []) ⊎ TagHolds xs)
  unfolding tag_matchers match_field
  tag_matchers_iff [] = (λ _. inl refl, λ _. refl)
  tag_matchers_iff (x ∷ xs) = listed_iff x xs _ (
      any_iff _ (λ t. any (λ u. u == t) (x ∷ xs))
        (λ t. any_iff (λ u. u ≡ t) (λ u. u == t) (λ u. str_beq_iff u t) (x ∷ xs)) op.tags)

  abbrev all_fields : List FieldMatcher → Bool
  all_fields ms = all (λ m. match_field e unicode m op) ms

  all_fields-or_always :
      (ms : List FieldMatcher) → all_fields (if is_nil ms then always ∷ [] else ms) ≡ all_fields ms
  unfolding match_field
  all_fields-or_always [] = refl
  all_fields-or_always (m ∷ ms) = refl

  all_fields-parts :
      (a b c d : List FieldMatcher)
      → all_fields (a ++ (b ++ (c ++ d)))
        ≡ (all_fields a && (all_fields b && (all_fields c && all_fields d)))
  all_fields-parts a b c d = simp all-append

  match_rule_iff :
      (rule : DiscoveryRule) (rm : RuleMatcher)
      → new_rule_matcher e unicode rule ≡ ok rm
      → (match_rule e unicode rm op ≡ true) ↔ RuleHolds rule
  unfolding new_rule_matcher match_rule
  match_rule_iff rule rm h =
      let (ids, got_ids, h') = >>=-eq-ok (id_matchers e unicode rule.operation_ids) _ h in
      let (paths, got_paths, same) = >>=-eq-ok (path_matchers e unicode rule.paths) _ h' in
      let i = id_matchers_iff rule.operation_ids ids got_ids in
      let m = method_matchers_iff rule.methods in
      let p = path_matchers_iff rule.paths paths got_paths in
      let t = tag_matchers_iff rule.tags in
      let ms = method_matchers e unicode rule.methods in
      let ts = tag_matchers e unicode rule.tags in
      let whole : match_rule e unicode rm op
          ≡ (all_fields ids && (all_fields ms && (all_fields paths && all_fields ts))) =
        ap (λ r. match_rule e unicode r op) (sym (ok_injective same))
        ∙ all_fields-or_always (ids ++ (ms ++ (paths ++ ts)))
        ∙ all_fields-parts ids ms paths ts in
      (
        λ b.
            let (bi, bm, bp, bt) = (and4_iff _ _ _ _).0 (sym whole ∙ b) in
            record { ids = i.0 bi; methods = m.0 bm; paths = p.0 bp; tags = t.0 bt },
        λ r. whole ∙ (and4_iff _ _ _ _).1 (i.1 r.ids, m.1 r.methods, p.1 r.paths, t.1 r.tags),
      )

  rule_matchers_iff :
      (wrap : ℕ → RuleError → DiscoveryError) (n : ℕ) (rules : List DiscoveryRule)
      (rms : List RuleMatcher)
      → rule_matchers e unicode wrap n rules ≡ ok rms
      → (is_nil rms ≡ is_nil rules)
        × ((any (λ c. match_rule e unicode c op) rms ≡ true) ↔ Some RuleHolds rules)
  unfolding rule_matchers
  rule_matchers_iff wrap n [] rms h = rw (← ok_injective h) (refl, (λ b. absurd (cc b), elim [ ]))
  rule_matchers_iff wrap n (rule ∷ rules) rms h =
      elim (Result-cases (new_rule_matcher e unicode rule)) [
        | inl (x, failed) ↦ absurd (ground (arith, failed))
        | inr (rm, made) ↦
            let (rs, rest, same) =
              >>=-eq-ok (rule_matchers e unicode wrap (n + 1) rules) (λ rs. ok (rm ∷ rs))
                (rw (made, rule_matchers) at h) in
            let first = match_rule_iff rule rm made in
            let later = rule_matchers_iff wrap (n + 1) rules rs rest in
            rw (← ok_injective same) (refl, any-cons_iff RuleHolds rule rules _ _ first later.1)
      ]

  included_iff :
      (rms : List RuleMatcher) (rules : List DiscoveryRule)
      → is_nil rms ≡ is_nil rules
      → (any (λ c. match_rule e unicode c op) rms ≡ true) ↔ Some RuleHolds rules
      → (match_or e unicode (record { children = rms; empty = true }) op ≡ true)
        ↔ ((rules ≡ []) ⊎ Some RuleHolds rules)
  unfolding match_or
  included_iff [] [] n i = (λ _. inl refl, λ _. refl)
  included_iff [] (r ∷ rs) n i = absurd (cc n)
  included_iff (x ∷ xs) [] n i = absurd (cc n)
  included_iff (x ∷ xs) (r ∷ rs) n i =
      (λ b. inr (i.0 b), elim [ inl none_left ↦ absurd (cc none_left) | inr s ↦ i.1 s ])

  excluded_iff :
      (rms : List RuleMatcher) (rules : List DiscoveryRule)
      → is_nil rms ≡ is_nil rules
      → (any (λ c. match_rule e unicode c op) rms ≡ true) ↔ Some RuleHolds rules
      → (match_or e unicode (record { children = rms; empty = false }) op ≡ true)
        ↔ Some RuleHolds rules
  unfolding match_or
  excluded_iff [] rules n i = i
  excluded_iff (x ∷ xs) rules n i = i

-- `Expose = Include AND NOT(Exclude)` on the answers of the two matchers.
expose_iff :
    (i x : Bool)
    → ((if not i then false else if x then false else true) ≡ true) ↔ ((i ≡ true) × (x ≡ false))
expose_iff i x = ground arith

-- An operation is exposed exactly when some include rule holds, or there is none, and no exclude
-- rule holds; a rule holds when each field that it lists has an entry that the operation meets.
pub match_discovery_iff :
    (e : Engine) (unicode : Str → Str) (d : ApiDiscovery) (m : DiscoveryMatcher) (op : Operation)
    → new_discovery_matcher e unicode d ≡ ok m
    → (match_discovery e unicode m op ≡ true) ↔ Exposed e unicode op d
unfolding new_discovery_matcher match_discovery
match_discovery_iff e unicode d m op h =
    let (inc, got_inc, h') = >>=-eq-ok (rule_matchers e unicode in_include 0 d.include) _ h in
    let (exc, got_exc, same) = >>=-eq-ok (rule_matchers e unicode in_exclude 0 d.exclude) _ h' in
    let i = rule_matchers_iff e unicode op in_include 0 d.include inc got_inc in
    let x = rule_matchers_iff e unicode op in_exclude 0 d.exclude exc got_exc in
    let inside = included_iff e unicode op inc d.include i.0 i.1 in
    let outside = excluded_iff e unicode op exc d.exclude x.0 x.1 in
    rw (← ok_injective same) (
      λ b.
          let (hit, clear) = (expose_iff _ _).0 b in
          record { included = inside.0 hit; not_excluded = λ s. cc (clear, outside.1 s) },
      λ r.
          (expose_iff _ _).1
            (inside.1 r.included, false_of_ne _ (λ t. r.not_excluded (outside.0 t))),
    )

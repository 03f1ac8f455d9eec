-- ===== src/Openapi/Matcher.antt =====
-- matcher.go: discovery rules compiled to matchers. Each type of matcher is a constructor or a
-- record of its own, with the matchers that the constructors of the source can put inside it.
pub mod Selects
use ops_mcp.Openapi.Operation.{Operation}
use ops_mcp.Model.Api.{DiscoveryRule, ApiDiscovery}
use ops_mcp.Openapi.PathMatch.{Engine, match_path}
use ops_mcp.Prelude.{
  ◌>>◌, ℕ, ◌+◌, Bool, true, false, not, none, some, List, [], ◌∷◌, ◌++◌, map, if◌then◌else◌, ◌==◌,
  nat_eq, is_nil, any, all, Str, str, str_beq, str_eq, has_prefix, to_upper, Result, ok, err, ◌>>=◌,
}

-- The matchers of one field; `always` is the one of a rule with no field.
pub data FieldMatcher : Type 0 where
  always : FieldMatcher
  operation_id : List (Str → Bool) → FieldMatcher
  method : List Str → FieldMatcher
  path : List Str → FieldMatcher
  tag : List Str → FieldMatcher

pub record RuleMatcher : Type 0 where
  pub matchers : List FieldMatcher

-- `empty` is the answer of the matcher that stands in for no children.
pub record OrMatcher : Type 0 where
  pub children : List RuleMatcher
  pub empty : Bool

pub record DiscoveryMatcher : Type 0 where
  pub include : OrMatcher
  pub exclude : OrMatcher

-- fmt.Errorf("operation_ids pattern %q"), fmt.Errorf("paths pattern %q")
pub data RuleError : Type 0 where
  operation_ids_pattern paths_pattern : Str → RuleError

-- fmt.Errorf("discovery.include[%d]"), fmt.Errorf("discovery.exclude[%d]")
pub data DiscoveryError : Type 0 where
  in_include in_exclude : ℕ → RuleError → DiscoveryError

module _ (e : Engine) where
  -- The loop of NewOperationIDMatcher.
  compile_all : List Str → Result RuleError (List (Str → Bool))
  compile_all [] = ok []
  compile_all (p ∷ ps) = elim (e.compile p) [
    | none ↦ err (operation_ids_pattern p)
    | some re ↦ compile_all ps >>= λ res. ok (re ∷ res)
  ]

  unfoldable pub new_operation_id_matcher : List Str → Result RuleError FieldMatcher
  unfolding compile_all
  new_operation_id_matcher patterns = do res ← compile_all patterns; ok (operation_id res)

  unfoldable pub validate_path_patterns : List Str → Result RuleError (Unit {0})
  unfolding has_prefix
  validate_path_patterns [] = ok tt
  validate_path_patterns (p ∷ ps) =
      let rest = validate_path_patterns ps in
      if has_prefix p (str "^")
      then (elim (e.compile p) [ none ↦ err (paths_pattern p) | some _ ↦ rest ])
      else rest

  path_hit : Str → Str → Bool
  unfolding match_path
  path_hit p s = elim (match_path e p s) [ none ↦ false | some b ↦ b ]

  module _ (unicode : Str → Str) where
    unfoldable pub new_method_matcher : List Str → FieldMatcher
    new_method_matcher methods = method (map (to_upper unicode) methods)

    unfoldable pub match_field : FieldMatcher → Operation → Bool
    unfolding path_hit str_beq
    match_field always op = true
    match_field (operation_id res) op = any (λ re. re op.operation_id) res
    match_field (method ms) op = any (λ m. m == to_upper unicode op.method) ms
    match_field (path patterns) op = any (λ p. path_hit p op.path) patterns
    match_field (tag tags) op = any (λ t. any (λ u. u == t) tags) op.tags

    -- The matchers that each field of a rule adds: one if it lists anything.
    pub id_matchers : List Str → Result RuleError (List FieldMatcher)
    unfolding new_operation_id_matcher
    id_matchers [] = ok []
    id_matchers (p ∷ ps) = do m ← new_operation_id_matcher (p ∷ ps); ok (m ∷ [])

    pub method_matchers : List Str → List FieldMatcher
    unfolding new_method_matcher
    method_matchers [] = []
    method_matchers (m ∷ ms) = new_method_matcher (m ∷ ms) ∷ []

    pub path_matchers : List Str → Result RuleError (List FieldMatcher)
    unfolding validate_path_patterns
    path_matchers [] = ok []
    path_matchers (p ∷ ps) = do validate_path_patterns (p ∷ ps); ok (path (p ∷ ps) ∷ [])

    pub tag_matchers : List Str → List FieldMatcher
    tag_matchers [] = []
    tag_matchers (t ∷ ts) = tag (t ∷ ts) ∷ []

    unfoldable pub new_rule_matcher : DiscoveryRule → Result RuleError RuleMatcher
    unfolding id_matchers method_matchers path_matchers tag_matchers
    new_rule_matcher rule = do
      ids ← id_matchers rule.operation_ids
      paths ← path_matchers rule.paths
      let ms = ids ++ (method_matchers rule.methods ++ (paths ++ tag_matchers rule.tags))
      ok (record { matchers = if is_nil ms then always ∷ [] else ms })

    unfoldable pub match_rule : RuleMatcher → Operation → Bool
    unfolding match_field
    match_rule m op = all (λ sub. match_field sub op) m.matchers

    unfoldable pub match_or : OrMatcher → Operation → Bool
    unfolding match_rule
    match_or m op = if is_nil m.children then m.empty else any (λ c. match_rule c op) m.children

    -- A loop of NewDiscoveryMatcher over the rules from index `i` on.
    rule_matchers :
        (ℕ → RuleError → DiscoveryError)
        → ℕ
        → List DiscoveryRule
        → Result DiscoveryError (List RuleMatcher)
    unfolding new_rule_matcher
    rule_matchers wrap i [] = ok []
    rule_matchers wrap i (rule ∷ rules) = elim (new_rule_matcher rule) [
      | err x ↦ err (wrap i x)
      | ok rm ↦ rule_matchers wrap (i + 1) rules >>= λ rms. ok (rm ∷ rms)
    ]

    unfoldable pub new_discovery_matcher : ApiDiscovery → Result DiscoveryError DiscoveryMatcher
    unfolding rule_matchers
    new_discovery_matcher d = do
      inc ← rule_matchers in_include 0 d.include
      exc ← rule_matchers in_exclude 0 d.exclude
      ok (record {
        include = record { children = inc; empty = true };
        exclude = record { children = exc; empty = false };
      })

    unfoldable pub match_discovery : DiscoveryMatcher → Operation → Bool
    unfolding match_or
    match_discovery d op =
        if not (match_or d.include op) then false else if match_or d.exclude op then false else true

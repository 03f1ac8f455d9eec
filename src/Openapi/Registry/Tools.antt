-- ===== src/Openapi/Registry/Tools.antt =====
-- The loop over one API's operations, and what a whole load leaves in the registry.
pub mod Loaded
use mathlib.Core.List.{append_assoc, append-nil, map-append}
use mathlib.Core.Path.{subst}
use ops_mcp.Model.Api.{ApiService}
use ops_mcp.Openapi.Operation.{Operation}
use ops_mcp.Openapi.Matcher.{DiscoveryMatcher, new_discovery_matcher, match_discovery}
use ops_mcp.Openapi.Matcher.Selects.{Exposed, match_discovery_iff}
use ops_mcp.Openapi.Schema.Build.{ToolMeta, build_tool_meta, member}
use ops_mcp.Openapi.Schema.Required.{not_member}
use ops_mcp.Openapi.Parse.Raw.{RawDoc, load_doc}
use ops_mcp.Openapi.Parse.Extract.{extract_operations}
use ops_mcp.Openapi.Registry.Load.{Environment, Loading, map_err, register, load_op, load_ops}
use ops_mcp.Prelude.{
  ◌+◌, ◌≡◌, refl, sym, ap, ◌∙◌, ◌↔◌, ◌⊎◌, inl, inr, Bool, true, false, ◌&&◌, List, [], ◌∷◌, ◌++◌,
  map, arith, nat_eq, length, all, keep, All, All-append, Has, Distinct, Distinct-concat, Str,
  str_eq, is_empty, is_empty_iff, Dict, has, keys, insert_new, has_iff, Result, ok, err, >>=-eq-ok,
  ok_injective,
}

abbrev pub tool_of : ApiService → Operation → ToolMeta
tool_of svc op = (build_tool_meta svc.prefix op).0

abbrev pub entry_of : ToolMeta → Str × ToolMeta
entry_of t = (t.name, t)

module _ (env : Environment) where
  -- The operations that the loop does not pass over.
  abbrev pub selects : DiscoveryMatcher → Operation → Bool
  selects disc op = is_empty op.skip_reason && match_discovery env.engine env.unicode_upper disc op

  -- The tools so far: their names are distinct, and none is a disk plugin's.
  pub record IsClean (tools : Dict ToolMeta) : Type 0 where
    pub distinct : Distinct (keys tools)
    pub free : All (λ (b : Str × ToolMeta). ¬ Has b.0 env.reserved) tools

  pub register_lem :
      (svc : ApiService) (op : Operation) (s s' : Loading)
      → register env svc op s ≡ ok s'
      → (s'.tools ≡ s.tools ++ entry_of (tool_of svc op) ∷ [])
        × (has (tool_of svc op).name s.tools ≡ false)
        × (member (tool_of svc op).name env.reserved ≡ false)
        × (s'.count ≡ s.count + 1)
  unfolding register
  register_lem svc op s s' h =
      let t = tool_of svc op in
      let free : has t.name s.tools ≡ false = ground arith in
      (ground (arith, free, insert_new t.name t s.tools free), free, ground arith, ground arith)

  load_op_lem :
      (svc : ApiService) (disc : DiscoveryMatcher) (op : Operation) (s s' : Loading)
      → load_op env svc disc op s ≡ ok s'
      → ((selects disc op ≡ true) × (register env svc op s ≡ ok s'))
        ⊎ ((selects disc op ≡ false) × (s ≡ s'))
  unfolding load_op
  load_op_lem svc disc op s s' h = ground arith

  keys-append :
      (m : Dict ToolMeta) (t : ToolMeta) → keys (m ++ entry_of t ∷ []) ≡ keys m ++ t.name ∷ []
  unfolding keys
  keys-append m t = map-append _ m (entry_of t ∷ [])

  All-concat_free :
      (m : Dict ToolMeta) (t : ToolMeta)
      → All (λ (b : Str × ToolMeta). ¬ Has b.0 env.reserved) m
      → ¬ Has t.name env.reserved
      → All (λ (b : Str × ToolMeta). ¬ Has b.0 env.reserved) (m ++ entry_of t ∷ [])
  All-concat_free m t h n = All-append _ m (entry_of t ∷ []) h (n, tt)

  not_has : (k : Str) (m : Dict ToolMeta) → has k m ≡ false → ¬ Has k (keys m)
  not_has k m f h = cc (f, (has_iff k m).1 h)

  register-IsClean :
      (svc : ApiService) (op : Operation) (s s' : Loading)
      → register env svc op s ≡ ok s'
      → IsClean s.tools
      → IsClean s'.tools
  register-IsClean svc op s s' h c =
      let t = tool_of svc op in
      let (grown, new, free, _) = register_lem svc op s s' h in
      subst IsClean (sym grown) (record {
        distinct =
            subst Distinct (sym (keys-append s.tools t))
              (Distinct-concat (keys s.tools) t.name c.distinct (not_has t.name s.tools new));
        free = All-concat_free s.tools t c.free (not_member t.name env.reserved free);
      })

  -- The tools of the selected operations, in order.
  unfoldable pub selected : ApiService → DiscoveryMatcher → List Operation → List ToolMeta
  selected svc disc ops = map (tool_of svc) (keep (selects disc) ops)

  module _ (svc : ApiService) (disc : DiscoveryMatcher) (op : Operation)
      (ops : List Operation) where
    selected-true :
        selects disc op ≡ true
        → selected svc disc (op ∷ ops) ≡ tool_of svc op ∷ selected svc disc ops
    unfolding selected keep
    selected-true h = rw h refl

    selected-false : selects disc op ≡ false → selected svc disc (op ∷ ops) ≡ selected svc disc ops
    unfolding selected keep
    selected-false h = rw h refl

  pub load_ops_lem :
      (svc : ApiService) (disc : DiscoveryMatcher) (ops : List Operation) (s s' : Loading)
      → load_ops env svc disc ops s ≡ ok s'
      → IsClean s.tools
      → (s'.tools ≡ s.tools ++ map entry_of (selected svc disc ops))
        × IsClean s'.tools
        × (s'.count ≡ s.count + length (selected svc disc ops))
  unfolding load_ops selected keep
  load_ops_lem svc disc [] s s' h c =
      rw (← ok_injective h) (sym (append-nil s.tools), c, omega arith)
  load_ops_lem svc disc (op ∷ ops) s s' h c =
      let (s1, one, more) = >>=-eq-ok (load_op env svc disc op s) _ h in
      elim (load_op_lem svc disc op s s1 one) [
        | inl (yes_sel, reg) ↦
            let (grown, _, _, counted) = register_lem svc op s s1 reg in
            let (all, clean, total) =
              load_ops_lem svc disc ops s1 s' more (register-IsClean svc op s s1 reg c) in
            rw (selected-true svc disc op ops yes_sel) (
              all
                  ∙ ap (λ m. m ++ map entry_of (selected svc disc ops)) grown
                  ∙ append_assoc s.tools _ _,
              clean,
              omega (arith, total, counted),
            )
        | inr (no_sel, same) ↦
            rw (selected-false svc disc op ops no_sel)
              (load_ops_lem svc disc ops s s' (rw same more) c)
      ]

  -- What one API contributes: its document loads, its rules compile, and each operation that they
  -- expose and that is not to be skipped becomes a tool.
  pub record Contributes (svc : ApiService) (ts : List ToolMeta) : Type 0 where
    pub doc : RawDoc
    pub disc : DiscoveryMatcher
    pub loaded : load_doc env.read svc.openapi_path ≡ ok doc
    pub compiled : new_discovery_matcher env.engine env.unicode_upper svc.discovery ≡ ok disc
    pub tools : ts ≡ selected svc disc (extract_operations env.unicode_lower svc.name doc).0
    pub exposed :
        (op : Operation)
        → (selects disc op ≡ true)
          ↔ ((op.skip_reason ≡ []) × Exposed env.engine env.unicode_upper op svc.discovery)

  abbrev pub ContributeAll : List ApiService → List (List ToolMeta) → Type 0
  ContributeAll [] [] = Unit
  ContributeAll (svc ∷ svcs) (ts ∷ tss) = Contributes svc ts × ContributeAll svcs tss
  ContributeAll _ _ = ⊥

  abbrev pub joined : List (List ToolMeta) → List ToolMeta
  joined [] = []
  joined (ts ∷ tss) = ts ++ joined tss

  pub map_err-eq-ok :
      {A E F : Type 0} (f : E → F) (r : Result E A) {a : A} → map_err f r ≡ ok a → r ≡ ok a
  map_err-eq-ok f (ok x) h = cc
  map_err-eq-ok f (err x) h = absurd (cc h)

  pub selects_iff :
      (svc : ApiService) (disc : DiscoveryMatcher) (op : Operation)
      → new_discovery_matcher env.engine env.unicode_upper svc.discovery ≡ ok disc
      → (selects disc op ≡ true)
        ↔ ((op.skip_reason ≡ []) × Exposed env.engine env.unicode_upper op svc.discovery)
  selects_iff svc disc op h =
      let i = match_discovery_iff env.engine env.unicode_upper svc.discovery disc op h in
      (
        λ b. ((is_empty_iff op.skip_reason).0 (ground arith), i.0 (ground arith)),
        λ r. ground (arith, (is_empty_iff op.skip_reason).1 r.0, i.1 r.1),
      )

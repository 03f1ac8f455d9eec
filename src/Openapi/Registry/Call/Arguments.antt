-- ===== src/Openapi/Registry/Call/Arguments.antt =====
-- What validateArgs asks of the arguments of a tool, and what it guarantees to fillPath.
use ops_mcp.Prelude.Value.{Value, string, strings, object, to_fields, given}
use ops_mcp.Openapi.Operation.{Operation, Parameter, RequestBody}
use ops_mcp.Openapi.PathMatch.Segments.{IsTemplate}
use ops_mcp.Openapi.Schema.Build.{
  ToolMeta, Draft, member, unique_strings, add_param, add_params, add_body_prop, add_body_props,
  add_required_props, add_body, draft_of, empty_draft, input_schema_of, build_tool_meta,
}
use ops_mcp.Openapi.Schema.Required.{unique_strings_lem}
use ops_mcp.Openapi.Schema.Fill.{fill_path}
use ops_mcp.Openapi.Schema.Fill.Segments.{fill_path_iff, IsGiven}
use ops_mcp.Openapi.Registry.Call.{required_of, validate_required, validate_args}
use ops_mcp.Prelude.{
  ◌≡◌, refl, ◌∙◌, inl, inr, true, Option, none, some, List, [], ◌∷◌, arith, if◌then◌else◌,
  Bool-cases, Option-cases, nat_eq, is_nil, All, Some, here, there, Has, Has-append_left,
  Has-append_right, All-at, Str, str, str_beq, str_eq, split, Dict, lookup, insert, ok,
}

abbrev RequiredBy : List Parameter → Str → Type 0
RequiredBy ps n = Some (λ (p : Parameter). (p.name ≡ n) × (p.required ≡ true)) ps

-- The names that are required only grow.
add_param-keeps :
    (p : Parameter) (d : Draft) (n : Str) → Has n d.required → Has n (add_param p d).required
unfolding add_param
add_param-keeps p d n h = elim (Bool-cases p.required) [
  | inl t ↦ rw t (Has-append_left n (p.name ∷ []) h)
  | inr f ↦ rw f h
]

add_params-keeps :
    (ps : List Parameter) (d : Draft) (n : Str)
    → Has n d.required
    → Has n (add_params ps d).required
unfolding add_params
add_params-keeps [] d n h = h
add_params-keeps (p ∷ ps) d n h = add_params-keeps ps (add_param p d) n (add_param-keeps p d n h)

add_params-required :
    (ps : List Parameter) (d : Draft) (n : Str) → RequiredBy ps n → Has n (add_params ps d).required
unfolding add_params
add_params-required [] d n h = elim h [ ]
add_params-required (p ∷ ps) d n (here (name, req)) =
    add_params-keeps ps (add_param p d) n (rw req (Has-append_right n d.required (here name)))
add_params-required (p ∷ ps) d n (there h) = add_params-required ps (add_param p d) n h

add_body_props-required :
    (op_id : Str) (ps : Dict Value) (d : Draft) → (add_body_props op_id ps d).required ≡ d.required
unfolding add_body_props add_body_prop
add_body_props-required op_id [] d = refl
add_body_props-required op_id ((name, schema) ∷ ps) d =
    add_body_props-required op_id ps (add_body_prop op_id name schema d) ∙ ground arith

add_required_props-keeps :
    (names : List Str) (d : Draft) (n : Str)
    → Has n d.required
    → Has n (add_required_props names d).required
unfolding add_required_props
add_required_props-keeps [] d n h = h
add_required_props-keeps (m ∷ ms) d n h = elim (Bool-cases (member m d.body_props)) [
  | inl t ↦
      rw (t, add_required_props) (add_required_props-keeps ms _ n (Has-append_left n (m ∷ []) h))
  | inr f ↦ rw (f, add_required_props) (add_required_props-keeps ms d n h)
]

add_body-keeps :
    (op_id : Str) (b : Option RequestBody) (d : Draft) (n : Str)
    → Has n d.required
    → Has n (add_body op_id b d).required
unfolding add_body
add_body-keeps op_id none d n h = h
add_body-keeps op_id (some b) d n h = elim (Bool-cases b.expand_object) [
  | inl t ↦ rw t (
      add_required_props-keeps b.required_props (add_body_props op_id b.properties d) n
        (rw (add_body_props-required op_id b.properties d) h))
  | inr f ↦
      rw f (elim (Bool-cases b.required) [ inl t ↦ rw t (Has-append_left n _ h) | inr g ↦ rw g h ])
]

schema_with :
    (props : Value) (us : List Str)
    → required_of (
        lookup (str "required") (
          let schema = (str "type", string (str "object")) ∷ (str "properties", props) ∷ [] in
          if is_nil us then schema else insert (str "required") (strings us) schema))
      ≡ us
unfolding lookup insert str_beq
schema_with props [] = refl
schema_with props (u ∷ us) = refl

input_schema-required :
    (d : Draft)
    → required_of (lookup (str "required") (input_schema_of d)) ≡ unique_strings d.required
unfolding input_schema_of lookup insert str_beq
input_schema-required d = schema_with (object (to_fields d.properties)) (unique_strings d.required)

module _ (tool : ToolMeta) (args : Dict Value) where
  validate_required_sound :
      (names : List Str)
      → validate_required tool args names ≡ ok tt
      → All (λ n. (v : Value) × (given n args ≡ some v)) names
  unfolding validate_required
  validate_required_sound [] h = tt
  validate_required_sound (n ∷ ns) h = elim (Option-cases (given n args)) [
    | inl missing ↦ absurd (ground (arith, missing))
    | inr (v, found) ↦ ((v, found), validate_required_sound ns (ground (arith, found)))
  ]

-- Each template `{name}` of the path is the name of a required parameter.
abbrev pub DeclaresPath : Operation → Type 0
DeclaresPath op =
    All (λ seg. (t : IsTemplate seg) → RequiredBy op.parameters t.0) (split b'/' op.path)

required_given :
    (prefix : Str) (op : Operation) (args : Dict Value) (n : Str)
    → validate_args (build_tool_meta prefix op).0 args ≡ ok tt
    → RequiredBy op.parameters n
    → (v : Value) × (given n args ≡ some v)
unfolding validate_args build_tool_meta draft_of
required_given prefix op args n h r =
    let d = draft_of op in
    let listed : Has n d.required =
      add_body-keeps op.operation_id op.request_body (add_params op.parameters empty_draft) n
        (add_params-required op.parameters empty_draft n r) in
    let named = ((unique_strings_lem d.required).1 n).1 listed in
    All-at _
      (validate_required_sound (build_tool_meta prefix op).0 args (unique_strings d.required)
        (rw (input_schema-required d) at h))
      named

All-map {ℓ κ ι} :
    {A : Type ℓ} (P : A → Type κ) (Q : A → Type ι) (xs : List A)
    → ((x : A) → P x → Q x)
    → All P xs
    → All Q xs
All-map P Q [] f h = tt
All-map P Q (x ∷ xs) f h = (f x h.0, All-map P Q xs f h.1)

-- If each `{name}` of an operation's path is the name of a required parameter, arguments that
-- pass the validation of its tool fill the path: the call does not fail for want of one.
pub fill_path_of_validate_args :
    (sprint : Value → Str) (prefix : Str) (op : Operation) (args : Dict Value)
    → DeclaresPath op
    → validate_args (build_tool_meta prefix op).0 args ≡ ok tt
    → (p : Str) × (fill_path sprint (build_tool_meta prefix op).0.path args ≡ ok p)
unfolding build_tool_meta
fill_path_of_validate_args sprint prefix op args declared h =
    (fill_path_iff sprint op.path args).1 (
      All-map _ (IsGiven sprint args) (split b'/' op.path)
        (λ seg d t. required_given prefix op args t.0 h (d t)) declared)

-- ===== src/Openapi/Schema/Build.antt =====
-- buildToolMeta and uniqueStrings of schema.go; asStringMap of parse.go.
use ops_mcp.Prelude.Value.{
  Value, string, strings, object, any_map, fields, to_fields, string_entries,
}
use ops_mcp.Openapi.Operation.{Parameter, RequestBody, Operation}
use ops_mcp.Prelude.{
  Bool, true, false, Option, none, some, List, [], ◌∷◌, ◌++◌, if◌then◌else◌, ◌==◌, nat_eq, is_nil,
  any, Str, str, str_beq, str_eq, is_empty, Dict, lookup, has, insert,
}

pub record ToolMeta : Type 0 where
  pub name : Str
  pub description : Str
  pub input_schema : Dict Value
  pub api_name : Str
  pub method : Str
  pub path : Str
  pub param_ins : Dict Str
  pub body_mode : Str
  pub body_required : Bool
  pub body_prop_names : List Str

-- "%s: body property %q conflicts with parameter, skipped"
pub data Warning : Type 0 where
  body_conflict : Str → Str → Warning

unfoldable pub as_string_map : Value → Option (Dict Value)
unfolding string_entries
as_string_map (object fs) = some (fields fs)
as_string_map (any_map es) = string_entries es
as_string_map _ = none

-- Membership in a set of names, `map[string]struct{}`.
unfoldable pub member : Str → List Str → Bool
unfolding str_beq
member k xs = any (λ x. x == k) xs

-- The loop of uniqueStrings, with the set of what was seen.
unfoldable pub unique_from : List Str → List Str → List Str
unfolding member
unique_from seen [] = []
unique_from seen (s ∷ ss) = elim (member s seen) [
  | true ↦ unique_from seen ss
  | false ↦ s ∷ unique_from (s ∷ seen) ss
]

unfoldable pub unique_strings : List Str → List Str
unfolding unique_from
unique_strings ss = unique_from [] ss

-- The variables of buildToolMeta that its loops change.
pub record Draft : Type 0 where
  pub properties : Dict Value
  pub required : List Str
  pub param_ins : Dict Str
  pub body_props : List Str
  pub warns : List Warning

abbrev pub or_empty : Option (Dict Value) → Dict Value → Dict Value
or_empty none d = d
or_empty (some m) d = m

unfoldable pub param_prop : Parameter → Dict Value
unfolding insert lookup
param_prop p =
    let described =
      if is_empty p.description
      then p.schema
      else insert (str "description") (string p.description) p.schema in
    if has (str "type") described
    then described
    else insert (str "type") (string (str "string")) described

-- One round of the loop over the parameters.
unfoldable pub add_param : Parameter → Draft → Draft
unfolding param_prop insert
add_param p d = record d {
  properties = insert p.name (object (to_fields (param_prop p))) d.properties;
  param_ins = insert p.name p.location d.param_ins;
  required = if p.required then d.required ++ p.name ∷ [] else d.required;
}

unfoldable pub add_params : List Parameter → Draft → Draft
unfolding add_param
add_params [] d = d
add_params (p ∷ ps) d = add_params ps (add_param p d)

-- One round of the loop over the properties of an object body.
unfoldable pub add_body_prop : Str → Str → Value → Draft → Draft
unfolding insert lookup as_string_map
add_body_prop op_id name schema d =
    if has name d.properties
    then record d { warns = d.warns ++ body_conflict op_id name ∷ [] }
    else record d {
      properties =
          insert name
            (object (
              to_fields
                (or_empty (as_string_map schema) ((str "type", string (str "string")) ∷ []))))
            d.properties;
      body_props = name ∷ d.body_props;
    }

unfoldable pub add_body_props : Str → Dict Value → Draft → Draft
unfolding add_body_prop
add_body_props op_id [] d = d
add_body_props op_id ((name, schema) ∷ ps) d =
    add_body_props op_id ps (add_body_prop op_id name schema d)

unfoldable pub add_required_props : List Str → Draft → Draft
unfolding member
add_required_props [] d = d
add_required_props (name ∷ names) d =
    add_required_props names
      (if member name d.body_props then record d { required = d.required ++ name ∷ [] } else d)

unfoldable pub add_body : Str → Option RequestBody → Draft → Draft
unfolding add_body_props add_required_props insert
add_body op_id none d = d
add_body op_id (some b) d =
    if b.expand_object
    then add_required_props b.required_props (add_body_props op_id b.properties d)
    else record d {
      properties = insert (str "body") (object (to_fields b.body_schema)) d.properties;
      param_ins = insert (str "body") (str "body") d.param_ins;
      required = if b.required then d.required ++ str "body" ∷ [] else d.required;
    }

abbrev pub body_mode_of : Option RequestBody → Str
body_mode_of none = []
body_mode_of (some b) = if b.expand_object then str "expand" else str "body"

abbrev pub body_required_of : Option RequestBody → Bool
body_required_of none = false
body_required_of (some b) = b.required

abbrev pub empty_draft : Draft
empty_draft = record { properties = []; required = []; param_ins = []; body_props = []; warns = [] }

-- The draft after both loops.
unfoldable pub draft_of : Operation → Draft
unfolding add_params add_body
draft_of op = add_body op.operation_id op.request_body (add_params op.parameters empty_draft)

unfoldable pub input_schema_of : Draft → Dict Value
unfolding unique_strings insert
input_schema_of d =
    let required = unique_strings d.required in
    let schema =
      (str "type", string (str "object"))
      ∷ (str "properties", object (to_fields d.properties))
      ∷ [] in
    if is_nil required then schema else insert (str "required") (strings required) schema

unfoldable pub description_of : Operation → Str
description_of op =
    if is_empty op.summary
    then (if is_empty op.description then op.method ++ (str " " ++ op.path) else op.description)
    else op.summary

unfoldable pub build_tool_meta : Str → Operation → ToolMeta × List Warning
unfolding draft_of input_schema_of description_of
build_tool_meta prefix op =
    let d = draft_of op in
    (
      record {
        name = prefix ++ op.operation_id;
        description = description_of op;
        input_schema = input_schema_of d;
        api_name = op.api_name;
        method = op.method;
        path = op.path;
        param_ins = d.param_ins;
        body_mode = body_mode_of op.request_body;
        body_required = body_required_of op.request_body;
        body_prop_names = d.body_props;
      },
      d.warns,
    )

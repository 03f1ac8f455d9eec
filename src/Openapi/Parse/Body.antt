-- ===== src/Openapi/Parse/Body.antt =====
-- pickJSONMedia, resolveSchema and projectRequestBody of parse.go.
use ops_mcp.Prelude.Value.{Value, string, array, items, is_null}
use ops_mcp.Openapi.Operation.{RequestBody}
use ops_mcp.Openapi.Schema.Build.{as_string_map, or_empty}
use ops_mcp.Openapi.Parse.Raw.{RawRequestBody, RawDoc}
use ops_mcp.Prelude.{
  Bool, true, false, not, ◌&&◌, ◌||◌, Option, none, some, List, [], ◌∷◌, if◌then◌else◌, ◌==◌,
  nat_eq, is_nil, Str, str, str_beq, str_eq, is_empty, contains, trim_prefix, Dict, lookup, Result,
  ok, err,
}

pub data BodyWarning : Type 0 where
  unsupported_ref schema_not_found schema_not_object body_ref : Str → BodyWarning
  no_json_content : BodyWarning

-- `mt, ok := content[k]; ok && mt.Schema != nil`
abbrev pub schema_at : Str → Dict (Option (Dict Value)) → Option (Dict Value)
schema_at k content = elim (lookup k content) [ none ↦ none | some s ↦ s ]

-- The loop over the other media types.
unfoldable pub any_json : Dict (Option (Dict Value)) → Option (Dict Value)
unfolding contains
any_json [] = none
any_json ((k, none) ∷ rest) = any_json rest
any_json ((k, some s) ∷ rest) = if contains k (str "json") then some s else any_json rest

abbrev pub or_else {ℓ} : {A : Type ℓ} → Option A → Option A → Option A
or_else none o = o
or_else (some a) o = some a

unfoldable pub pick_json_media : Dict (Option (Dict Value)) → Option (Dict Value)
unfolding any_json lookup
pick_json_media content =
    or_else (schema_at (str "application/json") content)
      (or_else (schema_at (str "*/*") content) (any_json content))

-- `s, _ := v.(string)`, the empty string for any other value.
abbrev pub text_of : Option Value → Str
text_of (some (string s)) = s
text_of _ = []

abbrev pub ref_prefix : Str
ref_prefix = str "#/components/schemas/"

-- The schema that a reference names, or the warning.
unfoldable pub resolve_ref : Str → Option (Dict Value) → Result BodyWarning (Dict Value)
unfolding trim_prefix lookup as_string_map str_beq
resolve_ref ref none = err (unsupported_ref ref)
resolve_ref ref (some schemas) =
    let name = trim_prefix ref ref_prefix in
    if name == ref then err (unsupported_ref ref) else elim (lookup name schemas) [
      | none ↦ err (schema_not_found ref)
      | some raw ↦ elim (as_string_map raw) [
        | none ↦ err (schema_not_object name)
        | some resolved ↦ ok resolved
      ]
    ]

unfoldable pub resolve_schema : Dict Value → RawDoc → Result BodyWarning (Dict Value)
unfolding resolve_ref
resolve_schema schema doc =
    let ref = text_of (lookup (str "$ref") schema) in
    if is_empty ref then ok schema else resolve_ref ref doc.schemas

-- The strings of `v.([]interface{})`.
unfoldable pub string_items : List Value → List Str
string_items [] = []
string_items (string s ∷ vs) = s ∷ string_items vs
string_items (_ ∷ vs) = string_items vs

abbrev pub strings_of : Option Value → List Str
strings_of (some (array vs)) = string_items (items vs)
strings_of _ = []

abbrev pub object_at : Option Value → Option (Dict Value)
object_at none = none
object_at (some v) = as_string_map v

abbrev pub is_set : Option Value → Bool
is_set none = false
is_set (some v) = not (is_null v)

-- The projection of a schema that was resolved.
unfoldable pub body_of : Bool → Dict Value → RequestBody
unfolding lookup string_items as_string_map str_beq
body_of required schema =
    let typ = text_of (lookup (str "type") schema) in
    if typ == str "object" || (is_empty typ && is_set (lookup (str "properties") schema))
    then record {
      required = required;
      expand_object = true;
      properties = or_empty (object_at (lookup (str "properties") schema)) [];
      required_props = strings_of (lookup (str "required") schema);
      body_schema = [];
    }
    else record {
      required = required;
      expand_object = false;
      properties = [];
      required_props = [];
      body_schema = schema;
    }

-- The body, if any, or the reason to skip the operation; and the warnings.
unfoldable pub project_request_body :
    RawRequestBody → RawDoc → Result Str (Option RequestBody) × List BodyWarning
unfolding pick_json_media resolve_schema body_of
project_request_body rb doc =
    if not (is_empty rb.ref)
    then (err (str "requestBody $ref not supported"), body_ref rb.ref ∷ [])
    else if is_nil rb.content
    then (ok none, [])
    else elim (pick_json_media rb.content) [
      | none ↦ (err (str "unsupported requestBody media type"), no_json_content ∷ [])
      | some schema ↦ elim (resolve_schema schema doc) [
        | err w ↦ (err (str "unresolvable requestBody schema"), w ∷ [])
        | ok resolved ↦ (ok (some (body_of rb.required resolved)), [])
      ]
    ]

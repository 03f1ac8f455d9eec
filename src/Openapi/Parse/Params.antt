-- ===== src/Openapi/Parse/Params.antt =====
-- mergeParameters of parse.go.
pub mod Ordered
pub mod Merged
use ops_mcp.Prelude.Value.{Value, string}
use ops_mcp.Openapi.Operation.{Parameter}
use ops_mcp.Openapi.Parse.Raw.{RawParameter}
use ops_mcp.Prelude.{
  false, not, ◌&&◌, ◌||◌, Option, none, some, List, [], ◌∷◌, ◌++◌, map, if◌then◌else◌, ◌==◌, nat_eq,
  Str, str, str_eq, is_empty, to_lower, Dict, lookup, has, insert,
}

-- The variables of mergeParameters; the warnings are the references that were skipped.
pub record Merge : Type 0 where
  pub by_key : Dict Parameter
  pub order : List Str
  pub warns : List Str

abbrev pub zero_parameter : Parameter
zero_parameter = record {
  name = [];
  location = [];
  required = false;
  description = [];
  schema = [];
}

abbrev pub or_string_schema : Option (Dict Value) → Dict Value
or_string_schema none = (str "type", string (str "string")) ∷ []
or_string_schema (some s) = s

abbrev pub or_zero : Option Parameter → Parameter
or_zero none = zero_parameter
or_zero (some p) = p

module _ (unicode : Str → Str) where
  -- The key of a parameter that is taken, `none` for one that is passed over.
  unfoldable pub key_of : RawParameter → Option Str
  key_of rp =
      let location = to_lower unicode rp.location in
      if not (is_empty rp.ref)
      then none
      else if location == str "cookie"
      then none
      else if not (location == str "path")
          && (not (location == str "query") && not (location == str "header"))
      then none
      else some (location ++ (b':' ∷ rp.name))

  unfoldable pub project : RawParameter → Parameter
  project rp =
      let location = to_lower unicode rp.location in
      record {
        name = rp.name;
        location = location;
        required = rp.required || location == str "path";
        description = rp.description;
        schema = or_string_schema rp.schema;
      }

  abbrev pub put : RawParameter → Option Str → Merge → Merge
  put rp none m = m
  put rp (some key) m = record m {
    order = if has key m.by_key then m.order else m.order ++ key ∷ [];
    by_key = insert key (project rp) m.by_key;
  }

  -- The closure `add`.
  unfoldable pub add : RawParameter → Merge → Merge
  add rp m =
      if is_empty rp.ref then put rp (key_of rp) m else record m { warns = m.warns ++ rp.ref ∷ [] }

  unfoldable pub add_all : List RawParameter → Merge → Merge
  add_all [] m = m
  add_all (rp ∷ rps) m = add_all rps (add rp m)

  unfoldable pub merged : List RawParameter → List RawParameter → Merge
  merged path_level op_level =
      add_all op_level (add_all path_level (record { by_key = []; order = []; warns = [] }))

  unfoldable pub merge_parameters :
      List RawParameter → List RawParameter → List Parameter × List Str
  merge_parameters path_level op_level =
      let m = merged path_level op_level in
      (map (λ k. or_zero (lookup k m.by_key)) m.order, m.warns)

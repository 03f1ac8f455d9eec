-- ===== src/Model/Plugin.antt =====
-- model/plugin.go. `parse_duration` is time.ParseDuration, in nanoseconds.
use ops_mcp.Prelude.Value.{Value, string, strings, object, to_fields}
use ops_mcp.Prelude.{
  List, [], ◌∷◌, map, is_nil, str, Bool, Option, none, some, if◌then◌else◌, nat_eq, ℤ, is_nonpos,
  Str, str_eq, is_empty, Dict,
}

pub record PluginInputField : Type 0 where
  pub input_type : Str
  pub required : Bool
  pub description : Str

pub record PluginMeta : Type 0 where
  pub name : Str
  pub version : Str
  pub description : Str
  pub plugin_type : Str
  pub target_type : Str
  pub input : Dict PluginInputField
  pub runtime : Str
  pub timeout : Str
  pub path : Str
  pub script : Str

unfoldable pub plugin_timeout : (Str → Option ℤ) → PluginMeta → ℤ → ℤ
plugin_timeout parse_duration p default =
    if is_empty p.timeout then default else elim (parse_duration p.timeout) [
      | none ↦ default
      | some d ↦ if is_nonpos d then default else d
    ]

-- InputSchema. `range` runs through the map in an order that Go does not fix.
unfoldable pub schema_property : PluginInputField → Value
schema_property field = object (
    to_fields (
      (str "type", string field.input_type)
      ∷ (if is_empty field.description
          then []
          else (str "description", string field.description) ∷ [])))

unfoldable pub required_names : Dict PluginInputField → List Str
required_names [] = []
required_names (f ∷ fs) =
    let rest = required_names fs in if (f.1).required then f.0 ∷ rest else rest

unfoldable pub input_schema : PluginMeta → Dict Value
unfolding schema_property
input_schema p =
    (str "type", string (str "object"))
    ∷ (str "properties", object (to_fields (map (λ f. (f.0, schema_property f.1)) p.input)))
    ∷ (if is_nil (required_names p.input)
        then []
        else (str "required", strings (required_names p.input)) ∷ [])

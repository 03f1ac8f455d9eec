-- ===== src/Executor.antt =====
-- executor/executor.go. The script engine is a parameter.
pub mod Types
pub mod Params
mod Tests
use ops_mcp.Model.Errors.{
  invalid_params, internal_error, GoError, Message, missing_param, must_be, ToolResult, fail_result,
  result_of,
}
use ops_mcp.Model.Plugin.{PluginInputField, PluginMeta, plugin_timeout}
use ops_mcp.Prelude.Value.{
  Value, null, bool, int, int32, int64, float32, float64, string, strings, array, object, is_null,
}
use ops_mcp.Prelude.{
  Bool, true, false, not, ◌&&◌, Option, none, some, [], ◌∷◌, if◌then◌else◌, nat_eq, ◌==◌, ℤ, pos,
  is_nonpos, Str, str, str_eq, is_empty, Dict, lookup, Result, ok, err, refuse, ◌>>◌,
}

-- checkType: whether a value has the type that a plugin declares; an unknown type takes any value.
unfoldable pub is_number : Value → Bool
is_number (float64 n) = true
is_number (float32 n) = true
is_number (int n) = true
is_number (int32 n) = true
is_number (int64 n) = true
is_number _ = false

unfoldable pub is_string : Value → Bool
is_string (string s) = true
is_string _ = false

unfoldable pub is_boolean : Value → Bool
is_boolean (bool b) = true
is_boolean _ = false

unfoldable pub is_array : Value → Bool
is_array (array vs) = true
is_array (strings ss) = true
is_array _ = false

unfoldable pub is_object : Value → Bool
is_object (object fs) = true
is_object _ = false

unfoldable pub has_type : Str → Value → Bool
unfolding is_string is_number is_boolean is_array is_object
has_type typ v =
    if typ == str "string"
    then is_string v
    else if typ == str "number"
    then is_number v
    else if typ == str "boolean"
    then is_boolean v
    else if typ == str "array"
    then is_array v
    else if typ == str "object"
    then is_object v
    else true

unfoldable pub check_type : Str → Str → Value → Result Message (Unit {0})
check_type name typ v = refuse (not (has_type typ v)) (must_be name typ)

-- A missing key is the nil interface value.
abbrev pub arg_of : Str → Dict Value → Value
arg_of name args = elim (lookup name args) [ none ↦ null | some v ↦ v ]

-- `!ok || val == nil || val == ""`.
unfoldable pub is_absent : Value → Bool
is_absent null = true
is_absent (string s) = is_empty s
is_absent _ = false

unfoldable pub check_param : Dict Value → Str → PluginInputField → Result Message (Unit {0})
check_param args name field = do
  refuse (field.required && is_absent (arg_of name args)) (missing_param name)
  if is_null (arg_of name args) then ok tt else check_type name field.input_type (arg_of name args)

unfoldable pub validate_params : Dict PluginInputField → Dict Value → Result Message (Unit {0})
validate_params [] args = ok tt
validate_params (f ∷ fs) args = check_param args f.0 f.1 >> validate_params fs args

-- New replaces a default timeout that is not positive: 30 seconds, in nanoseconds.
unfoldable pub new_timeout : ℤ → ℤ
new_timeout d = if is_nonpos d then pos 30000000000 else d

-- `run` is Execute of the script runtime, with the script, the arguments and the time limit.
module _ (parse_duration : Str → Option ℤ) (run : Str → Dict Value → ℤ → Result GoError Value) where
  unfoldable pub execute : ℤ → PluginMeta → Dict Value → ToolResult
  execute default_timeout plugin args = elim (validate_params plugin.input args) [
    | err message ↦ fail_result invalid_params message
    | ok done ↦
        let timeout = plugin_timeout parse_duration plugin default_timeout in
        result_of internal_error (run plugin.script args timeout)
  ]

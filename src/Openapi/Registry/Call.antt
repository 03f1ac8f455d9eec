-- ===== src/Openapi/Registry/Call.antt =====
-- Call and validateArgs of registry.go.
pub mod Arguments
use ops_mcp.Prelude.Value.{Value, null, string, strings, array, items, object, to_fields, given}
use ops_mcp.Model.Errors.{
  plugin_not_found, invalid_params, connector_error, tool_not_found, missing_parameter,
  missing_path_parameter, api_not_found, GoError, ToolResult, fail_result, result_of,
}
use ops_mcp.Model.Api.{ApiService, endpoint_timeout}
use ops_mcp.Openapi.Schema.Build.{ToolMeta}
use ops_mcp.Openapi.Schema.Fill.{fill_path}
use ops_mcp.Openapi.Parse.Body.{string_items}
use ops_mcp.Openapi.Registry.Load.{Registry, get_tool}
use ops_mcp.Prelude.{
  Bool, false, not, ◌&&◌, ◌||◌, Option, none, some, List, [], ◌∷◌, if◌then◌else◌, ◌==◌, nat_eq,
  is_nil, ℤ, is_nonpos, Str, str, str_eq, is_empty, trim_space, Dict, lookup, insert, Result, ok,
  err,
}

-- schema["required"], as []string or as a list of any values.
abbrev pub required_of : Option Value → List Str
required_of (some (strings ss)) = ss
required_of (some (array vs)) = string_items (items vs)
required_of _ = []

abbrev pub location_is : Str → Option Str → Bool
location_is location none = is_empty location
location_is location (some l) = l == location

-- Whether the argument is a blank string for a path parameter.
abbrev pub is_blank_path : Value → Option Str → Bool
is_blank_path (string s) location = is_empty (trim_space s) && location_is (str "path") location
is_blank_path _ location = false

module _ (tool : ToolMeta) (args : Dict Value) where
  -- The loop of validateArgs; the error is the name of the missing parameter.
  unfoldable pub validate_required : List Str → Result Str (Unit {0})
  validate_required [] = ok tt
  validate_required (name ∷ names) =
      let rest = validate_required names in
      elim (given name args) [
        | none ↦ err name
        | some v ↦ if is_blank_path v (lookup name tool.param_ins) then err name else rest
      ]

  unfoldable pub validate_args : Result Str (Unit {0})
  validate_args = validate_required (required_of (lookup (str "required") tool.input_schema))

-- httpconn.Request, in API mode.
pub record Request : Type 0 where
  pub api : Str
  pub method : Str
  pub path : Str
  pub query : Dict Str
  pub headers : Dict Str
  pub body : Value
  pub timeout : ℤ

-- fmt.Sprint, the configuration's lookup and timeouts, and the HTTP connector's Do.
pub record Outside : Type 0 where
  pub sprint : Value → Str
  pub get_api : Str → Option ApiService
  pub parse_duration : Str → Option ℤ
  pub default_timeout : ℤ
  pub http_do : Request → Result GoError Value

module _ (out : Outside) where
  open out use {sprint, get_api, parse_duration, default_timeout, http_do}

  -- The arguments of the parameters in one location, as text.
  unfoldable pub params_in : Str → Dict Str → Dict Value → Dict Str
  params_in location [] args = []
  params_in location ((name, l) ∷ ins) args =
      let rest = params_in location ins args in
      if l == location
      then (elim (given name args) [ none ↦ rest | some v ↦ insert name (sprint v) rest ])
      else rest

  unfoldable pub body_props_in : List Str → Dict Value → Dict Value
  body_props_in [] args = []
  body_props_in (name ∷ names) args =
      let rest = body_props_in names args in
      elim (lookup name args) [ none ↦ rest | some v ↦ insert name v rest ]

  unfoldable pub body_in : ToolMeta → Dict Value → Value
  body_in tool args =
      if tool.body_mode == str "body"
      then (elim (lookup (str "body") args) [ none ↦ null | some v ↦ v ])
      else if tool.body_mode == str "expand"
      then (let obj = body_props_in tool.body_prop_names args in
          if not (is_nil obj) || tool.body_required then object (to_fields obj) else null)
      else null

  unfoldable pub request_for : ToolMeta → ApiService → Str → Dict Value → Request
  request_for tool svc path args =
      let own = endpoint_timeout parse_duration svc.endpoint in
      record {
        api = tool.api_name;
        method = tool.method;
        path = path;
        query = params_in (str "query") tool.param_ins args;
        headers = params_in (str "header") tool.param_ins args;
        body = body_in tool args;
        timeout = if is_nonpos own then default_timeout else own;
      }

  unfoldable pub call_tool : ToolMeta → Dict Value → ToolResult
  call_tool tool args = elim (validate_args tool args) [
    | err name ↦ fail_result invalid_params (missing_parameter name)
    | ok _ ↦ elim (fill_path sprint tool.path args) [
      | err name ↦ fail_result invalid_params (missing_path_parameter name)
      | ok path ↦ elim (get_api tool.api_name) [
        | none ↦ fail_result connector_error (api_not_found tool.api_name)
        | some svc ↦ result_of connector_error (http_do (request_for tool svc path args))
      ]
    ]
  ]

  unfoldable pub call : Registry → Str → Dict Value → ToolResult
  call r name args = elim (get_tool name r) [
    | none ↦ fail_result plugin_not_found (tool_not_found name)
    | some tool ↦ call_tool tool args
  ]

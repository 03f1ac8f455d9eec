-- ===== src/Mcp/Server.antt =====
-- The Server of mcp/server.go: its tools, the calls of tools, and Handle.
pub mod Dispatch
pub mod Replies
pub mod Answers
use ops_mcp.Model.Errors.{
  GoError, invalid_params, plugin_not_found, not_found, text, ToolResult, fail_result,
}
use ops_mcp.Model.Plugin.{PluginMeta, input_schema}
use ops_mcp.Executor.{execute}
use ops_mcp.Mcp.Protocol.{
  Request, Response, CallParams, Codec, is_notification, decode_id, initialize, tool_result_content,
}
use ops_mcp.Openapi.Registry.Call.{Outside, call}
use ops_mcp.Openapi.Registry.Load.{Registry, get_tool, count_tools, list_tools}
use ops_mcp.Openapi.Schema.Build.{ToolMeta}
use ops_mcp.Plugins.Manager.{PluginManager, get, list, count}
use ops_mcp.Prelude.Value.{Value, null, string, array, object, nil, cons, Items, to_fields}
use ops_mcp.Prelude.{
  ℕ, ◌+◌, not, ◌&&◌, ◌||◌, Option, none, some, List, [], ◌∷◌, ◌++◌, map, if◌then◌else◌, ◌==◌,
  nat_eq, ℤ, negsuc, Str, str, str_eq, is_empty, Dict, Result,
}

-- The registry is attached by SetAPITools, and may be nil.
pub record Server : Type 0 where
  pub plugins : PluginManager
  pub api_tools : Option Registry

-- JSON, the script runtime with its time limit, and what a call of an API needs.
pub record Surroundings : Type 0 where
  pub codec : Codec
  pub parse_duration : Str → Option ℤ
  pub run : Str → Dict Value → ℤ → Result GoError Value
  pub default_timeout : ℤ
  pub outside : Outside

-- An entry of the list of tools.
pub record Listed : Type 0 where
  pub name : Str
  pub description : Str
  pub schema : Dict Value

abbrev pub listed_plugin : PluginMeta → Listed
listed_plugin p = record { name = p.name; description = p.description; schema = input_schema p }

abbrev pub listed_tool : ToolMeta → Listed
listed_tool t = record { name = t.name; description = t.description; schema = t.input_schema }

abbrev pub entry_value : Listed → Value
entry_value l = object (
    to_fields (
      (str "name", string l.name)
      ∷ (str "description", string l.description)
      ∷ (str "inputSchema", object (to_fields l.schema))
      ∷ []))

abbrev pub to_items : List Value → Items
to_items [] = nil
to_items (v ∷ vs) = cons v (to_items vs)

abbrev pub tools_of : Option Registry → List ToolMeta
tools_of none = []
tools_of (some r) = list_tools r

abbrev pub count_of : Option Registry → ℕ
count_of none = 0
count_of (some r) = count_tools r

unfoldable pub listed : Server → List Listed
listed s = map listed_plugin (list s.plugins) ++ map listed_tool (tools_of s.api_tools)

unfoldable pub tools_list : Server → Value
unfolding listed
tools_list s =
    object (to_fields ((str "tools", array (to_items (map entry_value (listed s)))) ∷ []))

unfoldable pub tools_count : Server → ℕ
tools_count s = count s.plugins + count_of s.api_tools

module _ (around : Surroundings) (s : Server) where
  -- The registry is asked when no plugin has the name.
  unfoldable pub route_api : Option Registry → Str → Dict Value → ToolResult
  route_api none name args = fail_result plugin_not_found (not_found (str "plugin") name)
  route_api (some r) name args = elim (get_tool name r) [
    | none ↦ fail_result plugin_not_found (not_found (str "plugin") name)
    | some t ↦ call around.outside r name args
  ]

  unfoldable pub route : Str → Dict Value → ToolResult
  unfolding route_api
  route name args = elim (get s.plugins name) [
    | some p ↦ execute around.parse_duration around.run around.default_timeout p args
    | none ↦ route_api s.api_tools name args
  ]

  unfoldable pub tools_call : Str → Value
  unfolding route
  tools_call params = elim ((around.codec).call_params params) [
    | none ↦
        tool_result_content around.codec
          (fail_result invalid_params (text (str "invalid tools/call params")))
    | some p ↦ tool_result_content around.codec (route p.name p.arguments)
  ]

  abbrev pub ok_response : Str → Value → Response
  ok_response id result = record {
    jsonrpc = str "2.0";
    id = decode_id around.codec id;
    result = some result;
    error = none;
  }

  abbrev pub err_response : Str → ℤ → Str → Response
  err_response id code message = record {
    jsonrpc = str "2.0";
    id = decode_id around.codec id;
    result = none;
    error = some (record { code = code; message = message; error_data = null });
  }

  -- The switch on the method.
  unfoldable pub handle_method : Request → Option Response
  unfolding is_notification
  handle_method req =
      if req.method == str "initialize"
      then some (ok_response req.id (initialize around.codec req.params))
      else if req.method == str "notifications/initialized" || req.method == str "initialized"
      then none
      else if req.method == str "ping"
      then some (ok_response req.id (object (to_fields [])))
      else if req.method == str "tools/list"
      then some (ok_response req.id (tools_list s))
      else if req.method == str "tools/call"
      then some (ok_response req.id (tools_call req.params))
      else if is_notification req.id
      then none
      else some (err_response req.id (negsuc 32600) (str "method not found: " ++ req.method))

  -- `none` is the nil response. The returned error is always nil.
  unfoldable pub handle : Str → Option Response
  unfolding handle_method
  handle raw = elim ((around.codec).request raw) [
    | none ↦ some (err_response [] (negsuc 32699) (str "parse error"))
    | some req ↦
        if not (is_empty req.jsonrpc) && not (req.jsonrpc == str "2.0")
        then some (err_response req.id (negsuc 32599) (str "invalid request: jsonrpc must be 2.0"))
        else handle_method req
  ]

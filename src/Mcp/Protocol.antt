-- ===== src/Mcp/Protocol.antt =====
-- The messages of mcp/server.go, and the results that need no tool.
use ops_mcp.Model.Errors.{ToolResult}
use ops_mcp.Prelude.Value.{Value, null, bool, string, array, object, nil, cons, to_fields}
use ops_mcp.Prelude.{
  ◌||◌, not, Option, none, some, [], ◌∷◌, if◌then◌else◌, ◌==◌, nat_eq, ℤ, Str, str, str_eq,
  is_empty, Dict, Bool, false,
}

-- A JSON-RPC request; its id and parameters are the texts of their JSON.
pub record Request : Type 0 where
  pub jsonrpc : Str
  pub id : Str
  pub method : Str
  pub params : Str

pub record RpcError : Type 0 where
  pub code : ℤ
  pub message : Str
  pub error_data : Value

pub record Response : Type 0 where
  pub jsonrpc : Str
  pub id : Value
  pub result : Option Value
  pub error : Option RpcError

pub record CallParams : Type 0 where
  pub name : Str
  pub arguments : Dict Value

-- json.Unmarshal at the types that the server decodes, `none` for an error, and json.Marshal of a
-- tool's result.
pub record Codec : Type 0 where
  pub request : Str → Option Request
  pub protocol_version : Str → Option Str
  pub call_params : Str → Option CallParams
  pub value : Str → Option Value
  pub marshal : ToolResult → Str

unfoldable pub is_notification : Str → Bool
is_notification id = is_empty id || id == str "null"

unfoldable pub decode_id : Codec → Str → Value
unfolding is_notification
decode_id codec raw =
    if is_notification raw then null else (elim (codec.value raw) [ none ↦ null | some v ↦ v ])

abbrev pub protocol_of : Option Str → Str
protocol_of none = str "2024-11-05"
protocol_of (some v) = if is_empty v then str "2024-11-05" else v

unfoldable pub initialize : Codec → Str → Value
initialize codec params = object (
    to_fields (
      (str "protocolVersion", string (protocol_of (codec.protocol_version params)))
      ∷ (
        str "capabilities",
        object (
            to_fields
              ((str "tools", object (to_fields ((str "listChanged", bool false) ∷ []))) ∷ [])),
      )
      ∷ (
        str "serverInfo",
        object (
            to_fields
              ((str "name", string (str "ops-mcp")) ∷ (str "version", string (str "0.1.0")) ∷ [])),
      )
      ∷ []))

unfoldable pub tool_result_content : Codec → ToolResult → Value
tool_result_content codec result = object (
    to_fields (
      (
        str "content",
        array (
            cons
              (object (
                to_fields (
                  (str "type", string (str "text"))
                  ∷ (str "text", string (codec.marshal result))
                  ∷ [])))
              nil),
      )
      ∷ (str "isError", bool (not result.success))
      ∷ []))

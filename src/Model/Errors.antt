-- ===== src/Model/Errors.antt =====
-- errors.go. A message keeps the arguments of its format string in place of the formatted text.
use ops_mcp.Prelude.Value.{Value, null}
use ops_mcp.Prelude.{ℤ, Bool, true, false, Option, none, some, nat_eq, Str, str_eq, Result, ok, err}

pub data ErrorCode : Type 0 where
  plugin_not_found invalid_params plugin_timeout connector_error runtime_error internal_error :
      ErrorCode

pub data Message : Type 0 where
  text : Str → Message
  tool_not_found missing_parameter missing_path_parameter api_not_found : Str → Message
  missing_param : Str → Message
  must_be : Str → Str → Message
  -- A prefix with the text of a cause; a prefix with another message.
  caused : Str → Str → Message
  wrapped : Str → Message → Message
  -- The kind of an entry and the name that was asked for.
  not_found : Str → Str → Message
  over_limit : Str → ℤ → ℤ → Message

pub record AppError : Type 0 where
  pub code : ErrorCode
  pub message : Message

-- An `error` that is an *AppError, or any other.
pub data GoError : Type 0 where
  app : AppError → GoError
  other : Message → GoError

pub record ToolResult : Type 0 where
  pub success : Bool
  pub payload : Value
  pub error : Option AppError

abbrev pub success_result : Value → ToolResult
success_result v = record { success = true; payload = v; error = none }

abbrev pub fail_result : ErrorCode → Message → ToolResult
fail_result c m = record {
  success = false;
  payload = null;
  error = some (record { code = c; message = m });
}

-- The result of a call that returned `(value, error)`; the code is for an error of no code.
abbrev pub result_of : ErrorCode → Result GoError Value → ToolResult
result_of c (ok v) = success_result v
result_of c (err (app e)) = fail_result e.code e.message
result_of c (err (other m)) = fail_result c m

-- A failure of a function that returns an *AppError.
abbrev pub fail {ℓ} : {A : Type ℓ} → ErrorCode → Message → Result AppError A
fail c m = err (record { code = c; message = m })

abbrev pub invalid {ℓ} : {A : Type ℓ} → Message → Result AppError A
invalid = fail invalid_params

abbrev pub refuse_invalid : Bool → Str → Result AppError (Unit {0})
refuse_invalid true s = invalid (text s)
refuse_invalid false s = ok tt

abbrev pub connector_failed {ℓ} : {A : Type ℓ} → Message → Result AppError A
connector_failed = fail connector_error

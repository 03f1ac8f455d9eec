-- ===== src/Connector/Command.antt =====
-- connector/command/command.go: Exec, with the process that it runs as a parameter.
pub mod Whitelisted
mod Tests
use ops_mcp.Config.Lookup.{get_command}
use ops_mcp.Config.Manager.{Manager}
use ops_mcp.Model.Command.{Command}
use ops_mcp.Model.Errors.{
  plugin_timeout, connector_error, AppError, caused, not_found, text, fail, invalid,
  connector_failed,
}
use ops_mcp.Prelude.{
  ℕ, ◌^◌, ◌||◌, Bool, true, false, Option, none, some, List, [], ◌++◌, map, leb, if◌then◌else◌,
  length, take, is_nil, ℤ, pos, Str, str, is_empty, Dict, Result, ok, err, ◌>>=◌, nat_beq, ◌∷◌,
}

pub record ExecRequest : Type 0 where
  pub command : Str
  pub args : List Str
  pub workdir : Str
  pub env : Dict Str

pub record ExecResult : Type 0 where
  pub stdout : Str
  pub stderr : Str
  pub exit_code : ℤ

-- exec.Cmd: no directory is that of the server, and no environment is that of the server.
pub record Process : Type 0 where
  pub path : Str
  pub args : List Str
  pub dir : Option Str
  pub env : Option (List Str)

-- The error of Run: one of the context, an exit status, or another.
pub data RunError : Type 0 where
  context_error : RunError
  exit_error : ℤ → RunError
  other_error : Str → RunError

-- What a run leaves: its output, its error, and the error of the context afterwards.
pub record Ended : Type 0 where
  pub stdout : Str
  pub stderr : Str
  pub error : Option RunError
  pub ctx_err : Option Str

abbrev pub max_output_bytes : ℕ
max_output_bytes = 1048576

abbrev pub marker : Str
marker = b'\n' ∷ str "...[truncated]"

unfoldable pub truncate_output : Str → ℕ → Str
truncate_output s max = if nat_beq max 0 || leb (length s) max then s else take max s ++ marker

abbrev pub or_absent : Str → Option Str
or_absent s = if is_empty s then none else some s

-- `environ` is os.Environ.
unfoldable pub env_of : List Str → Dict Str → Option (List Str)
env_of environ env =
    if is_nil env then none else some (environ ++ map (λ b. b.0 ++ str "=" ++ b.1) env)

abbrev pub find_command : Option Manager → Str → Result AppError Command
find_command none name = connector_failed (text (str "command.exec: config manager not configured"))
find_command (some m) name = elim (get_command m name) [
  | ok c ↦ ok c
  | err e ↦ invalid (not_found (str "command") name)
]

module _ (cfg : Option Manager) (environ : List Str) where
  -- The process of a request.
  unfoldable pub prepare : ExecRequest → Result AppError Process
  unfolding env_of
  prepare req =
      if is_empty req.command
      then invalid (text (str "command.exec: command is required"))
      else find_command cfg req.command >>= λ entry.
          if is_empty entry.path
          then connector_failed (caused req.command (str "no available path on this host"))
          else ok (record {
            path = entry.path;
            args = req.args;
            dir = or_absent req.workdir;
            env = env_of environ req.env;
          })

-- `none` is the panic of ctx.Err().Error() where the context has no error.
abbrev pub timed_out : Option Str → Option (Result AppError ExecResult)
timed_out none = none
timed_out (some cause) = some (fail plugin_timeout (text cause))

unfoldable pub result_with : Ended → ℤ → ExecResult
unfolding truncate_output
result_with e code = record {
  stdout = truncate_output e.stdout max_output_bytes;
  stderr = truncate_output e.stderr max_output_bytes;
  exit_code = code;
}

-- The rest of a failed run whose context is still good, by its error.
abbrev pub failed_run : Str → Ended → Option Str → RunError → Option (Result AppError ExecResult)
failed_run name e ctx_err context_error = timed_out ctx_err
failed_run name e (some cause) error = timed_out (some cause)
failed_run name e none (exit_error code) = some (ok (result_with e code))
failed_run name e none (other_error cause) = some (connector_failed (caused name cause))

abbrev pub outcome : Str → Ended → Option RunError → Option (Result AppError ExecResult)
outcome name e none = some (ok (result_with e (pos 0)))
outcome name e (some error) = failed_run name e e.ctx_err error

abbrev pub run_with :
    (Process → Ended) → Str → Result AppError Process → Option (Result AppError ExecResult)
run_with run name (err e) = some (err e)
run_with run name (ok p) = outcome name (run p) (run p).error

unfoldable pub exec :
    Option Manager
    → List Str
    → (Process → Ended)
    → ExecRequest
    → Option (Result AppError ExecResult)
unfolding prepare result_with
exec cfg environ run req = run_with run req.command (prepare cfg environ req)

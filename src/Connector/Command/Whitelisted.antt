-- ===== src/Connector/Command/Whitelisted.antt =====
-- Which processes Exec runs.
use ops_mcp.Config.Commands.Executable.{IsExecutable, load_commands_lem}
use ops_mcp.Config.Lookup.{find, get_command}
use ops_mcp.Config.Manager.Reload.{Reachable, Reachable-IsConsistent}
use ops_mcp.Config.Manager.Parts.{load_resources-parts}
use ops_mcp.Config.Manager.{System, load_resources, Manager}
use ops_mcp.Config.Commands.{Warning}
use ops_mcp.Config.Errors.{Resource}
use ops_mcp.Model.Command.{Command}
use ops_mcp.Model.Config.{AppConfig}
use ops_mcp.Model.Errors.{AppError}
use ops_mcp.Prelude.{
  List, Str, ◌≡◌, length, ok, ◌≤◌, ◌+◌, ◌∙◌, Bool-cases, ap, leb, ok_injective, inl, arith, leb→le,
  inr, length-append, take, ◌∷◌, str, length-take, Option, Result, ℤ, some, err, pos, none, lookup,
  Result-cases, Dict, Option-cases, ◌⊎◌,
}
use ops_mcp.Connector.Command.{
  context_error, exit_error, other_error, max_output_bytes, truncate_output, ExecResult,
  result_with, Ended, prepare, timed_out, RunError, ExecRequest, failed_run, outcome, Process,
  Command, get_command, exec, run_with,
}

-- The output that is kept: at most 1 MiB and the marker.
truncate_bound : (s : Str) → length (truncate_output s max_output_bytes) ≤ max_output_bytes + 15
unfolding truncate_output
truncate_bound s = elim (Bool-cases (leb (length s) max_output_bytes)) [
  | inl e ↦ rw e (omega (arith, leb→le (length s) max_output_bytes e))
  | inr e ↦ rw e (
      omega (
        arith,
        length-append (take max_output_bytes s) (b'\n' ∷ str "...[truncated]"),
        length-take max_output_bytes s,
      ))
]

abbrev pub Bounded : ExecResult → Type 0
Bounded r = (length r.stdout ≤ max_output_bytes + 15) × (length r.stderr ≤ max_output_bytes + 15)

abbrev pub BoundedOutcome : Option (Result AppError ExecResult) → Type 0
BoundedOutcome none = Unit
BoundedOutcome (some (err e)) = Unit
BoundedOutcome (some (ok r)) = Bounded r

result-Bounded : (e : Ended) (code : ℤ) → Bounded (result_with e code)
unfolding result_with
result-Bounded e code = (truncate_bound e.stdout, truncate_bound e.stderr)

timed_out-BoundedOutcome : (ctx_err : Option Str) → BoundedOutcome (timed_out ctx_err)
timed_out-BoundedOutcome none = tt
timed_out-BoundedOutcome (some cause) = tt

failed_run-BoundedOutcome :
    (name : Str) (e : Ended) (ctx_err : Option Str) (error : RunError)
    → BoundedOutcome (failed_run name e ctx_err error)
failed_run-BoundedOutcome name e none context_error = tt
failed_run-BoundedOutcome name e none (exit_error code) = result-Bounded e code
failed_run-BoundedOutcome name e none (other_error cause) = tt
failed_run-BoundedOutcome name e (some cause) context_error = tt
failed_run-BoundedOutcome name e (some cause) (exit_error code) = tt
failed_run-BoundedOutcome name e (some cause) (other_error c) = tt

outcome-BoundedOutcome :
    (name : Str) (e : Ended) (error : Option RunError) → BoundedOutcome (outcome name e error)
outcome-BoundedOutcome name e none = result-Bounded e (pos 0)
outcome-BoundedOutcome name e (some error) = failed_run-BoundedOutcome name e e.ctx_err error

-- The process of a request: the path of the command of that name in what `last` loads, which is one
-- of its absolute candidates and was then an executable file, with the arguments of the request.
pub record IsWhitelisted (app : AppConfig) (last : System) (m : Manager) (req : ExecRequest)
    (p : Process) : Type 0 where
  pub warnings : List Warning
  pub complete : load_resources last app ≡ ok (m.resources, warnings)
  pub command : Command
  pub configured : lookup req.command m.resources.commands ≡ some command
  pub executable : IsExecutable last.clean last.is_abs last.stat command
  pub path : p.path ≡ command.path
  pub args : p.args ≡ req.args

prepare_parts :
    (m : Manager) (environ : List Str) (req : ExecRequest) (p : Process)
    → prepare (some m) environ req ≡ ok p
    → (c : Command) × (get_command m req.command ≡ ok c) × (p.path ≡ c.path) × (p.args ≡ req.args)
unfolding prepare
prepare_parts m environ req p h = elim (Result-cases (get_command m req.command)) [
  | inl (e, h2) ↦ absurd (ground arith)
  | inr (c, h2) ↦ (c, h2, ground arith, ground arith)
]

find-eq-ok {ℓ} :
    {V : Type ℓ} (what : Resource) (name : Str) (m : Dict V) {v : V}
    → find what name m ≡ ok v
    → lookup name m ≡ some v
unfolding find
find-eq-ok what name m h = elim (Option-cases (lookup name m)) [
  | inl e ↦ absurd (cc (rw e at h))
  | inr (w, e) ↦ e ∙ ap some (ok_injective (rw e at h))
]

module _ {lower : Str → Str} {app : AppConfig} {last : System} {m : Manager}
    (reachable : Reachable lower app last m) (environ : List Str) (run : Process → Ended)
    (req : ExecRequest) where
  prepare-IsWhitelisted :
      (p : Process) → prepare (some m) environ req ≡ ok p → IsWhitelisted app last m req p
  unfolding get_command
  prepare-IsWhitelisted p h =
      let v = Reachable-IsConsistent reachable in
      let (c, got, path, args) = prepare_parts m environ req p h in
      let found = find-eq-ok Resource.commands req.command m.resources.commands got in
      record {
        warnings = v.warnings;
        complete = v.complete;
        command = c;
        configured = found;
        executable =
            load_commands_lem last.clean last.is_abs last.stat last.commands_at app.config.commands
              m.resources.commands v.warnings
              (load_resources-parts last app m.resources v.warnings v.complete).0 req.command c
              found;
        path = path;
        args = args;
      }

  -- On a manager that is loaded, reloaded and given loggers in any order, a request either is
  -- refused before any process runs, or it runs one process, at the path that the last load without
  -- an error found for the command of that name, one of its absolute candidates and then an
  -- executable file, with the request's arguments; what is returned of its output and of its errors is at most 1 MiB and the marker.
  pub exec_lem :
      (((e : AppError) × (prepare (some m) environ req ≡ err e)
          × (exec (some m) environ run req ≡ some (err e)))
        ⊎ ((p : Process) × IsWhitelisted app last m req p
            × (exec (some m) environ run req ≡ outcome req.command (run p) (run p).error)))
      × BoundedOutcome (exec (some m) environ run req)
  unfolding exec
  exec_lem = elim (Result-cases (prepare (some m) environ req)) [
    | inl (e, h) ↦ (inl (e, h, ap (run_with run req.command) h), rw h tt)
    | inr (p, h) ↦ (
      inr (p, prepare-IsWhitelisted p h, ap (run_with run req.command) h),
      rw h (outcome-BoundedOutcome req.command (run p) (run p).error),
    )
  ]

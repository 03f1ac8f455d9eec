-- ===== src/Connector/Command/Tests.antt =====
-- A configured command, run and refused.
use ops_mcp.Prelude.{
  str, Str, ◌∷◌, [], some, Option, ok, none, ◌≡◌, err, pos, if◌then◌else◌, ◌++◌, ◌==◌, ◌⊎◌, refl,
  false, true, str_eq,
}
use ops_mcp.Config.Commands.{
  FileInfo, add_command, normalize_path_candidates, command_path_available, resolve_command_path,
  check_absolute,
}
use ops_mcp.Config.Errors.{decoded}
use ops_mcp.Config.Lookup.{find, get_command}
use ops_mcp.Config.Manager.{System, Manager, apply_defaults, load, start}
use ops_mcp.Config.Manager.Reload.{Reachable, loaded}
use ops_mcp.Config.Samples.{same, no_files, app_file, loading}
use ops_mcp.Connector.Command.{
  ExecRequest, Process, Ended, prepare, exec, outcome, truncate_output, marker,
}
use ops_mcp.Connector.Command.Whitelisted.{IsWhitelisted, BoundedOutcome, exec_lem}
use ops_mcp.Model.Command.{Command}
use ops_mcp.Model.Errors.{AppError}

abbrev ping : Command
ping = record {
  name = str "ping";
  description = [];
  paths = str "/sbin/ping" ∷ str "/bin/ping" ∷ [];
  path = [];
}

abbrev only_bin : Str → Option FileInfo
only_bin p =
    if p == str "/bin/ping" then some (record { is_dir = false; is_executable = true }) else none

abbrev with_ping : System
with_ping = record no_files { commands_at = λ p. decoded (ping ∷ []); stat = only_bin }

abbrev served : Manager
served = elim (load with_ping [] app_file) [ ok m ↦ m | err e ↦ start [] app_file ]

served_loaded : Reachable same (apply_defaults [] app_file) with_ping served
unfolding loading add_command normalize_path_candidates command_path_available resolve_command_path
    check_absolute
served_loaded = loaded with_ping [] app_file refl refl refl

abbrev request : ExecRequest
request = record { command = str "ping"; args = str "::1" ∷ []; workdir = []; env = [] }

abbrev pong : Process → Ended
pong p = record { stdout = str "pong"; stderr = []; error = none; ctx_err = none }

exec_example :
    (((e : AppError) × (prepare (some served) [] request ≡ err e)
        × (exec (some served) [] pong request ≡ some (err e)))
      ⊎ ((p : Process) × IsWhitelisted (apply_defaults [] app_file) with_ping served request p
          × (exec (some served) [] pong request ≡ outcome (str "ping") (pong p) (pong p).error)))
    × BoundedOutcome (exec (some served) [] pong request)
exec_example = exec_lem served_loaded [] pong request

ponged :
    exec (some served) [] pong request
    ≡ some (ok (record { stdout = str "pong"; stderr = []; exit_code = pos 0 }))
unfolding exec find get_command truncate_output loading add_command normalize_path_candidates
    command_path_available resolve_command_path check_absolute
ponged = refl

cut : truncate_output (str "abcd") 2 ≡ str "ab" ++ marker
unfolding truncate_output
cut = refl

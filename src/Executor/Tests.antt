-- ===== src/Executor/Tests.antt =====
-- A plugin with one parameter, run with two sets of arguments.
use ops_mcp.Model.Plugin.{PluginMeta, plugin_timeout}
use ops_mcp.Model.Errors.{success_result, GoError, Message, invalid_params}
use ops_mcp.Executor.{
  validate_params, check_param, check_type, is_string, has_type, is_absent, execute,
}
use ops_mcp.Executor.Params.{Fits, IsAnswer, IsLimit, execute_lem}
use ops_mcp.Prelude.Value.{Value, string}
use ops_mcp.Prelude.{
  ◌≡◌, refl, ◌⊎◌, true, false, Option, none, [], ◌∷◌, nat_eq, All, ℤ, pos, Str, str, str_beq,
  str_eq, Dict, lookup, Result, ok, some,
}

abbrev lookup_host : PluginMeta
lookup_host = record {
  name = str "lookup";
  version = str "1";
  description = str "d";
  plugin_type = str "host";
  target_type = str "host";
  input =
      (str "host", record { input_type = str "string"; required = true; description = [] }) ∷ [];
  runtime = str "javascript";
  timeout = [];
  path = [];
  script = str "main";
}

abbrev named : Dict Value
named = (str "host", string (str "web")) ∷ []

abbrev no_duration : Str → Option ℤ
no_duration s = none

abbrev echo : Str → Dict Value → ℤ → Result GoError Value
echo script args limit = ok (string script)

execute_example :
    (All (Fits []) lookup_host.input
      × ((limit : ℤ) × IsLimit no_duration lookup_host (pos 5) limit
          × IsAnswer
              (echo lookup_host.script [] limit)
              (execute no_duration echo (pos 5) lookup_host [])))
    ⊎ ((¬ All (Fits []) lookup_host.input)
        × ((m : Message) × ((execute no_duration echo (pos 5) lookup_host []).success ≡ false)
            × ((execute no_duration echo (pos 5) lookup_host []).error
                ≡ some (record { code = invalid_params; message = m }))))
execute_example = execute_lem no_duration echo (pos 5) lookup_host []

-- The text of the parameter is given.
answered : execute no_duration echo (pos 5) lookup_host named ≡ success_result (string (str "main"))
unfolding execute validate_params check_param check_type has_type is_string is_absent lookup str_beq
    plugin_timeout
answered = refl

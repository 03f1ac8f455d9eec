-- ===== src/Config/Samples.antt =====
-- A configuration without entries, for the tests of the parts that use one.
use ops_mcp.Prelude.{
  Str, [], for_each, true, pos, lookup, none, str, insert, ◌∷◌, keys, values, str_beq, trim_space,
  to_lower, has_prefix,
}
use ops_mcp.Config.Errors.{missing, decoded}
use ops_mcp.Config.Load.{load_hosts, load_databases, load_kafka, load_redis}
use ops_mcp.Config.Snmp.{load_snmp, load_snmp_file, apply_snmp_defaults}
use ops_mcp.Config.Commands.{plain, load_commands, load_apis}
use ops_mcp.Config.Manager.{
  System, load_resources, reload_resources, reload_config, set_logger, apply_defaults, load,
}
use ops_mcp.Model.Config.{AppConfig}

abbrev pub same : Str → Str
same s = s

abbrev pub no_files : System
no_files = record {
  hosts_at = λ p. decoded [];
  databases_at = λ p. decoded [];
  redis_at = λ p. decoded [];
  kafka_at = λ p. decoded [];
  apis_at = λ p. missing;
  commands_at = λ p. missing;
  snmp_at = λ p. missing;
  lower = same;
  clean = same;
  is_abs = λ p. true;
  stat = λ p. none;
  pieces = λ s. plain s ∷ [];
  lookup_env = λ s. none;
}

abbrev pub app_file : AppConfig
app_file = record {
  server = record { host = []; port = pos 0; auth = record { token = [] } };
  plugins = record { dir = str "plugins" };
  config = record {
    hosts = [];
    databases = [];
    redis = [];
    kafka = [];
    apis = [];
    commands = [];
    snmp = [];
  };
  defaults = record { plugin_timeout = [] };
  log = record { level = []; encoding = [] };
}

-- Opening this opens what a load of such a configuration runs.
unfoldable pub loading : Unit {0}
unfolding load_hosts load_databases load_kafka load_redis load_apis load_commands load_snmp
    load_snmp_file apply_snmp_defaults apply_defaults load_resources reload_resources reload_config
    set_logger load for_each lookup insert keys values str_beq trim_space to_lower has_prefix
loading = tt

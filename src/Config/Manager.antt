-- ===== src/Config/Manager.antt =====
-- The Manager of config/config.go: defaults of the application file, loading and reloading of the
-- resources, the logger, lookups and lists. Every operation is atomic under the manager's mutex.
pub mod Reload
pub mod Parts
use ops_mcp.Config.Errors.{Resource, ConfigError, FileRead}
use ops_mcp.Config.Load.{load_hosts, load_databases, load_redis, load_kafka}
use ops_mcp.Config.Snmp.{load_snmp}
use ops_mcp.Config.Commands.{FileInfo, Piece, Warning, load_commands, load_apis}
use ops_mcp.Model.Config.{AppConfig}
use ops_mcp.Model.Host.{Host, HostSummary, host_summary}
use ops_mcp.Model.Database.{Database, DatabaseSummary, database_summary}
use ops_mcp.Model.Redis.{RedisInstance, RedisSummary, redis_summary}
use ops_mcp.Model.Kafka.{KafkaInstance, KafkaSummary, kafka_summary}
use ops_mcp.Model.Snmp.{
  SnmpAuth, SnmpCredential, SnmpDevice, SnmpDeviceSummary, SnmpDefaults, SnmpFile, device_summary,
}
use ops_mcp.Model.Command.{Command, CommandSummary, command_summary}
use ops_mcp.Model.Api.{ApiService, ApiSummary, api_summary}
use ops_mcp.Prelude.Sorting.{sort_by}
use ops_mcp.Prelude.{
  ◌>>=◌, ◌>>◌, zero, suc, Bool, Option, none, some, List, [], ◌∷◌, ◌++◌, ℤ, pos, negsuc, Str, str,
  Dict, Result, ok, err,
}

-- The files, the file system, the environment and the library functions that a load reads.
pub record System : Type 0 where
  pub hosts_at : Str → FileRead (List Host)
  pub databases_at : Str → FileRead (List Database)
  pub redis_at : Str → FileRead (List RedisInstance)
  pub kafka_at : Str → FileRead (List KafkaInstance)
  pub apis_at : Str → FileRead (List ApiService)
  pub commands_at : Str → FileRead (List Command)
  pub snmp_at : Str → FileRead SnmpFile
  pub lower : Str → Str
  pub clean : Str → Str
  pub is_abs : Str → Bool
  pub stat : Str → Option FileInfo
  pub pieces : Str → List Piece
  pub lookup_env : Str → Option Str

-- A logger that drops what it is given, or one that has written these warnings.
pub data Logger : Type 0 where
  nop : Logger
  sink : List Warning → Logger

abbrev pub warn_all : List Warning → Logger → Logger
warn_all ws nop = nop
warn_all ws (sink written) = sink (written ++ ws)

-- What one load of the resource files gives.
pub record Resources : Type 0 where
  pub hosts : Dict Host
  pub databases : Dict Database
  pub redis : Dict RedisInstance
  pub kafka : Dict KafkaInstance
  pub apis : Dict ApiService
  pub commands : Dict Command
  pub snmp_creds : Dict SnmpCredential
  pub snmp_devices : Dict SnmpDevice
  pub snmp_defaults : SnmpDefaults

pub record Manager : Type 0 where
  pub app : AppConfig
  pub resources : Resources
  pub log : Option Logger
  pub command_warnings : List Warning

abbrev pub or_text : Str → Str → Str
or_text default [] = default
or_text default (c ∷ s) = c ∷ s

abbrev pub or_port : ℤ → ℤ
or_port (pos zero) = pos 20267
or_port (pos (suc n)) = pos (suc n)
or_port (negsuc n) = negsuc n

-- `auth_token` is the environment's OPS_MCP_AUTH_TOKEN, empty when it is not set.
unfoldable pub apply_defaults : Str → AppConfig → AppConfig
apply_defaults auth_token app = record app {
  server = record app.server {
    host = or_text (str "0.0.0.0") app.server.host;
    port = or_port app.server.port;
    auth = record app.server.auth { token = or_text app.server.auth.token auth_token };
  };
  plugins = record app.plugins { dir = or_text (str "./plugins") app.plugins.dir };
  config = record app.config {
    hosts = or_text (str "./config/hosts.yaml") app.config.hosts;
    databases = or_text (str "./config/databases.yaml") app.config.databases;
    redis = or_text (str "./config/redis.yaml") app.config.redis;
    kafka = or_text (str "./config/kafka.yaml") app.config.kafka;
    apis = or_text (str "./config/apis.yaml") app.config.apis;
    commands = or_text (str "./config/commands.yaml") app.config.commands;
    snmp = or_text (str "./config/snmp.yaml") app.config.snmp;
  };
  defaults = record app.defaults {
    plugin_timeout = or_text (str "30s") app.defaults.plugin_timeout;
  };
  log = record app.log {
    level = or_text (str "info") app.log.level;
    encoding = or_text (str "json") app.log.encoding;
  };
}

unfoldable pub load_resources : System → AppConfig → Result ConfigError (Resources × List Warning)
load_resources sys app = do
  hosts ← load_hosts sys.hosts_at app.config.hosts
  dbs ← load_databases sys.databases_at app.config.databases
  rds ← load_redis sys.redis_at app.config.redis
  kfk ← load_kafka sys.kafka_at app.config.kafka
  apis ← load_apis sys.pieces sys.lookup_env sys.apis_at app.config.apis
  (commands, warnings) ←
      load_commands sys.clean sys.is_abs sys.stat sys.commands_at app.config.commands
  (creds, devices, defaults) ← load_snmp sys.lower sys.snmp_at app.config.snmp
  ok (
    record {
      hosts = hosts;
      databases = dbs;
      redis = rds;
      kafka = kfk;
      apis = apis;
      commands = commands;
      snmp_creds = creds;
      snmp_devices = devices;
      snmp_defaults = defaults;
    },
    warnings,
  )

-- Warnings go to the logger, or wait for one: the logger and the waiting warnings afterwards.
abbrev pub deliver : Option Logger → List Warning → Option Logger × List Warning
deliver none warnings = (none, warnings)
deliver (some log) warnings = (some (warn_all warnings log), [])

-- What reloadResources does to the manager once the files are loaded.
abbrev pub install : Manager → Resources × List Warning → Manager
install m (loaded, warnings) = record m {
  resources = loaded;
  log = (deliver m.log warnings).0;
  command_warnings = (deliver m.log warnings).1;
}

-- The manager after the call, and the error that the call returned.
unfoldable pub reload_resources : System → Manager → Manager × Option ConfigError
reload_resources sys m = elim (load_resources sys m.app) [
  | err e ↦ (m, some e)
  | ok loaded ↦ (install m loaded, none)
]

unfoldable pub reload_config : System → Manager → Manager × Option ConfigError
unfolding reload_resources
reload_config = reload_resources

unfoldable pub set_logger : Option Logger → Manager → Manager
set_logger given m =
    let log : Logger = elim given [ none ↦ nop | some l ↦ l ] in
    record m { log = some (warn_all m.command_warnings log); command_warnings = [] }

abbrev pub no_resources : Resources
no_resources = record {
  hosts = [];
  databases = [];
  redis = [];
  kafka = [];
  apis = [];
  commands = [];
  snmp_creds = [];
  snmp_devices = [];
  snmp_defaults = record {
    timeout = [];
    retries = pos 0;
    max_repetitions = pos 0;
    walk_max_oids = pos 0;
  };
}

abbrev pub start : Str → AppConfig → Manager
start auth_token file = record {
  app = apply_defaults auth_token file;
  resources = no_resources;
  log = none;
  command_warnings = [];
}

abbrev pub unless_failed : Manager × Option ConfigError → Result ConfigError Manager
unless_failed (m, none) = ok m
unless_failed (m, some e) = err e

-- Load, from the application file on: reading and decoding that file come before.
unfoldable pub load : System → Str → AppConfig → Result ConfigError Manager
load sys auth_token file = unless_failed (reload_resources sys (start auth_token file))

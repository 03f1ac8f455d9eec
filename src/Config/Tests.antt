-- ===== src/Config/Tests.antt =====
-- Small configuration files through the operations of internal/config, and the theorems about
-- them at inputs where their hypotheses hold.
use mathlib.Core.List.{Perm}
use ops_mcp.Config.Errors.{missing, decoded, env_not_set}
use ops_mcp.Config.Load.{
  add_host, load_hosts, with_host_port, add_database, load_databases, with_db_defaults, add_kafka,
  load_kafka, with_kafka_limit, add_redis, load_redis, with_redis_defaults,
}
use ops_mcp.Config.Loaded.{load_kafka_iff}
use ops_mcp.Config.Snmp.{
  validate_snmp_auth, validate_security_level, add_credential, add_device, check_choice,
  check_device_auth, with_snmp_port, load_snmp_file, load_snmp, apply_snmp_defaults,
}
use ops_mcp.Config.Snmp.Valid.{IsValid}
use ops_mcp.Config.Commands.{
  FileInfo, plain, variable, normalize_path_candidates, command_path_available,
  resolve_command_path, check_absolute, add_command, load_commands, expand_pieces,
  expand_env_strict, load_apis,
}
use ops_mcp.Config.Commands.Executable.{IsExecutable, load_commands_lem}
use ops_mcp.Config.Commands.Expanded.{Replaced, FirstUnset, expand_env_strict_lem}
use ops_mcp.Config.Manager.{
  System, Manager, start, load_resources, reload_resources, reload_config, set_logger, load,
  apply_defaults,
}
use ops_mcp.Config.Manager.Reload.{Reachable, loaded}
use ops_mcp.Config.Lookup.{
  find, auth_of, resolve_snmp_auth, matching_devices, labels_match, page, slice,
  list_snmp_device_summaries, get_command,
}
use ops_mcp.Config.Lookup.Auth.{resolve_snmp_auth_lem}
use ops_mcp.Config.Lookup.Summaries.{Summaries}
use ops_mcp.Config.Lookup.Paging.{list_snmp_device_summaries_lem, list_snmp_device_summaries_panics}
use ops_mcp.Model.Config.{AppConfig}
use ops_mcp.Model.Host.{Host}
use ops_mcp.Model.Database.{Database}
use ops_mcp.Model.Redis.{RedisInstance}
use ops_mcp.Model.Kafka.{KafkaInstance}
use ops_mcp.Model.Snmp.{
  SnmpAuth, SnmpDevice, SnmpDeviceSummary, SnmpFile, device_summary, auth_summary,
}
use ops_mcp.Model.Command.{Command}
use ops_mcp.Prelude.Sorting.{sort_by, IsAscending}
use ops_mcp.Prelude.{
  ◌<◌, ◌≡◌, refl, ◌⊎◌, Bool, true, false, Option, none, some, [], ◌∷◌, arith, if◌then◌else◌, nat_eq,
  ◌==◌, length, take, drop, keep, Distinct, pos, negsuc, add64, Str, str, str_beq, str_eq,
  has_prefix, trim_space, to_lower, lookup, has, keys, values, insert, ok, err, for_each, List,
}

abbrev web : Host
web = record {
  name = str "web";
  description = [];
  labels = [];
  address = record { host = str "10.0.0.1"; port = pos 0 };
  auth = record {
    auth_type = str "password";
    username = str "root";
    password = str "x";
    private_key = [];
    private_key_file = [];
  };
}

abbrev orders : Database
orders = record {
  name = str "orders";
  description = [];
  labels = [];
  db_type = str "mysql";
  connection = record {
    host = str "db";
    port = pos 0;
    username = [];
    password = [];
    database = [];
    sslmode = [];
  };
  readonly = true;
  limit = pos 0;
}

abbrev cache : RedisInstance
cache = record {
  name = str "cache";
  description = [];
  labels = [];
  connection = record {
    host = str "r";
    port = pos 0;
    username = [];
    password = [];
    tls = record {
      enabled = false;
      server_name = [];
      insecure_skip_verify = false;
      ca = [];
      ca_file = [];
      cert = [];
      cert_file = [];
      private_key = [];
      private_key_file = [];
    };
  };
  readonly = false;
  limit = negsuc 0;
}

abbrev events : KafkaInstance
events = record {
  name = str "events";
  description = [];
  labels = [];
  connection = record {
    brokers = str "k:9092" ∷ [];
    sasl = record { mechanism = []; username = []; password = [] };
    tls = record {
      enabled = false;
      server_name = [];
      insecure_skip_verify = false;
      ca = [];
      ca_file = [];
      cert = [];
      cert_file = [];
      private_key = [];
      private_key_file = [];
    };
  };
  readonly = false;
  limit = pos 5;
}

abbrev v2 : SnmpAuth
v2 = record {
  version = str "2C";
  community = str "public";
  security_level = [];
  username = [];
  auth_protocol = [];
  auth_password = [];
  priv_protocol = [];
  priv_password = [];
}

abbrev device : Str → SnmpDevice
device name = record {
  name = name;
  description = [];
  labels = (str "rack", str "1") ∷ [];
  address = record { host = str "10.0.0.9"; port = pos 0 };
  credential = str "ro";
  auth = none;
  context = [];
  timeout = [];
  retries = none;
  max_repetitions = none;
  walk_max_oids = none;
}

abbrev snmp_file : SnmpFile
snmp_file = record {
  credentials = (record { name = str "ro"; auth = v2 }) ∷ [];
  devices = device (str "sw2") ∷ device (str "sw1") ∷ [];
  defaults = record {
    timeout = [];
    retries = pos 0;
    max_repetitions = pos 0;
    walk_max_oids = pos 0;
  };
}

abbrev ping : Command
ping = record {
  name = str "ping";
  description = [];
  paths = str "/sbin/ping" ∷ str "/bin/ping" ∷ [];
  path = [];
}

abbrev app_file : AppConfig
app_file = record {
  server = record { host = []; port = pos 0; auth = record { token = [] } };
  plugins = record { dir = [] };
  config = record {
    hosts = [];
    databases = [];
    redis = [];
    kafka = [];
    apis = [];
    commands = [];
    snmp = [];
  };
  defaults = record { plugin_timeout = [] };
  log = record { level = []; encoding = [] };
}

abbrev same_text : Str → Str
same_text s = s

abbrev only_bin : Str → Option FileInfo
only_bin p =
    if p == str "/bin/ping" then some (record { is_dir = false; is_executable = true }) else none

abbrev sys : System
sys = record {
  hosts_at = λ p. decoded (web ∷ []);
  databases_at = λ p. decoded (orders ∷ []);
  redis_at = λ p. decoded (cache ∷ []);
  kafka_at = λ p. decoded (events ∷ []);
  apis_at = λ p. missing;
  commands_at = λ p. decoded (ping ∷ []);
  snmp_at = λ p. decoded snmp_file;
  lower = same_text;
  clean = same_text;
  is_abs = λ p. has_prefix p (str "/");
  stat = only_bin;
  pieces = λ s. plain s ∷ [];
  lookup_env = λ s. none;
}

-- The names that the tests compute with.
config : Unit {0}
unfolding load_hosts add_host with_host_port load_databases add_database with_db_defaults load_kafka
    add_kafka with_kafka_limit load_redis add_redis with_redis_defaults load_apis load_commands
    add_command normalize_path_candidates command_path_available resolve_command_path check_absolute
    load_snmp load_snmp_file add_credential add_device check_device_auth check_choice with_snmp_port
    validate_snmp_auth validate_security_level apply_snmp_defaults apply_defaults load_resources
    reload_resources reload_config set_logger load for_each lookup insert keys values str_beq
    has_prefix trim_space to_lower find auth_of resolve_snmp_auth matching_devices labels_match
    device_summary auth_summary sort_by keep list_snmp_device_summaries page slice add64
    expand_pieces expand_env_strict get_command
config = tt

no_duplicate : {k : Str} → Distinct (k ∷ [])
no_duplicate = (elim [ ], tt)

load_kafka_example :
    load_kafka (λ p. decoded (events ∷ [])) (str "kafka.yaml") ≡ ok ((str "events", events) ∷ [])
load_kafka_example =
    (load_kafka_iff (λ p. decoded (events ∷ [])) (str "kafka.yaml") (events ∷ []) refl
        ((str "events", events) ∷ [])).1
      (
        (((λ h. cc h), (λ h. cc h)), tt),
        no_duplicate,
        (
          record { under = refl; limited = λ h. refl; unlimited = λ h. absurd (omega (arith, h)) },
          tt,
        ),
      )

abbrev served : Manager
served = elim (load sys [] app_file) [ ok m ↦ m | err e ↦ start [] app_file ]

served_loaded : Reachable same_text (apply_defaults [] app_file) sys served
unfolding config
served_loaded = loaded sys [] app_file refl refl refl

abbrev broken : System
broken = record sys { hosts_at = λ p. missing }

sw1_held : has (str "sw1") served.resources.snmp_devices ≡ true
unfolding config
sw1_held = refl

resolve_snmp_auth_example :
    (a : SnmpAuth) × (resolve_snmp_auth served (str "sw1") ≡ ok a) × IsValid same_text a
resolve_snmp_auth_example = resolve_snmp_auth_lem served_loaded (str "sw1") sw1_held

second_page :
    (sorted : List SnmpDeviceSummary) × (found : List SnmpDeviceSummary)
    × (list_snmp_device_summaries served (record { labels = []; limit = pos 1; offset = pos 1 })
        ≡ some (take 1 (drop 1 sorted)))
    × IsAscending (λ s. s.name) sorted
    × Perm sorted found
    × Summaries [] (values served.resources.snmp_devices) found
second_page = list_snmp_device_summaries_lem served [] 0 1 (omega arith)

two_devices : 1 < length (matching_devices served [])
unfolding config
two_devices = omega arith

wrapped_page :
    list_snmp_device_summaries served
      (record { labels = []; limit = pos 9223372036854775807; offset = pos 1 })
    ≡ none
wrapped_page =
    list_snmp_device_summaries_panics served [] 9223372036854775806 1 two_devices (omega arith)
      (omega arith) (omega arith)

abbrev no_env : Str → Option Str
no_env name = if name == str "HOME" then some (str "/root") else none

expand_env_strict_example :
    ((out : Str) × (expand_env_strict
          (λ s. plain s ∷ variable (str "X") ∷ [])
          no_env
          (str "a")
          (str "f")
        ≡ ok out)
      × Replaced
          (λ s. plain s ∷ variable (str "X") ∷ [])
          no_env
          (plain (str "a") ∷ variable (str "X") ∷ [])
          out)
    ⊎ ((name : Str) × (expand_env_strict
            (λ s. plain s ∷ variable (str "X") ∷ [])
            no_env
            (str "a")
            (str "f")
          ≡ err (env_not_set (str "f") name))
        × FirstUnset
            (λ s. plain s ∷ variable (str "X") ∷ [])
            no_env
            (plain (str "a") ∷ variable (str "X") ∷ [])
            name)
expand_env_strict_example =
    expand_env_strict_lem (λ s. plain s ∷ variable (str "X") ∷ []) no_env (str "a") (str "f")

abbrev is_rooted : Str → Bool
is_rooted p = has_prefix p (str "/")

abbrev resolved_ping : Command
resolved_ping = record ping { path = str "/bin/ping" }

ping_loaded :
    load_commands same_text is_rooted only_bin (λ p. decoded (ping ∷ [])) (str "commands.yaml")
    ≡ ok ((str "ping", resolved_ping) ∷ [], [])
unfolding config
ping_loaded = refl

ping_found : lookup (str "ping") ((str "ping", resolved_ping) ∷ []) ≡ some resolved_ping
unfolding config
ping_found = refl

load_commands_example : IsExecutable same_text is_rooted only_bin resolved_ping
load_commands_example =
    load_commands_lem same_text is_rooted only_bin (λ p. decoded (ping ∷ [])) (str "commands.yaml")
      ((str "ping", resolved_ping) ∷ []) [] ping_loaded (str "ping") resolved_ping ping_found

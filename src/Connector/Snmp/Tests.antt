-- ===== src/Connector/Snmp/Tests.antt =====
-- A small agent through the operations of connector/snmp/snmp.go, and the theorems about them at
-- inputs where their hypotheses hold.
use ops_mcp.Config.Lookup.{find, auth_of, get_snmp_device, resolve_snmp_auth}
use ops_mcp.Config.Manager.{Manager, no_resources}
use ops_mcp.Connector.Snmp.Session.{
  acquire, pdu_value, pdu_var, vars_result, resolve_settings, find_device, open_device,
}
use ops_mcp.Connector.Snmp.Session.Settings.{resolve_settings_lem}
use ops_mcp.Connector.Snmp.Types.{
  other_type, go_string, Pdu, WalkRequest, SnmpClient, Context, slot_free, Snmp,
}
use ops_mcp.Connector.Snmp.Usm.{
  auth_priv, sha, aes, version3, GoSnmp, snmp_msg_flags, snmp_auth_protocol, snmp_priv_protocol,
  usm_of, version_of, build_gosnmp,
}
use ops_mcp.Connector.Snmp.Usm.Protected.{IsSafe, build_gosnmp_lem}
use ops_mcp.Connector.Snmp.Walk.{
  max_of, with_repetitions, walk_fn, finish, walk_open, do_walk, walk,
}
use ops_mcp.Connector.Snmp.Walk.Bounded.{each, ended, walk_open_lem}
use ops_mcp.Model.Snmp.{SnmpAuth, SnmpDevice}
use ops_mcp.Prelude.{
  ◌^◌, ◌<◌, ◌≡◌, refl, true, false, none, some, List, [], ◌∷◌, map, ltb, if◌then◌else◌, nat_eq,
  length, take, pos, negsuc, ◌≤ℤ◌, ◌<ℤ◌, Str, str, str_beq, str_eq, contains, trim_space, is_ascii,
  lower_byte, to_lower, upper_byte, to_upper, lookup, ok,
}

abbrev operator : SnmpAuth
operator = record {
  version = str "3";
  community = [];
  security_level = str "authPriv";
  username = str "op";
  auth_protocol = [];
  auth_password = str "a";
  priv_protocol = [];
  priv_password = str "p";
}

abbrev switch : SnmpDevice
switch = record {
  name = str "sw1";
  description = [];
  labels = [];
  address = record { host = str "10.0.0.9"; port = pos 161 };
  credential = [];
  auth = some operator;
  context = [];
  timeout = [];
  retries = some (negsuc 2);
  max_repetitions = none;
  walk_max_oids = some (pos 5);
}

abbrev manager : Manager
manager = record {
  app = record {
    server = record { host = []; port = pos 0; auth = record { token = [] } };
    plugins = record { dir = [] };
    config = record {
      hosts = [];
      databases = [];
      redis = [];
      kafka = [];
      apis = [];
      commands = [];
      snmp = [];
    };
    defaults = record { plugin_timeout = [] };
    log = record { level = []; encoding = [] };
  };
  resources = record no_resources { snmp_devices = (str "sw1", switch) ∷ [] };
  log = none;
  command_warnings = [];
}

abbrev interfaces : List Pdu
interfaces =
    record { name = str "1.1"; pdu_type = other_type 2; value = go_string (str "lo") }
    ∷ record { name = str "1.2"; pdu_type = other_type 2; value = go_string (str "eth0") }
    ∷ record { name = str "1.3"; pdu_type = other_type 2; value = go_string (str "eth1") }
    ∷ []

abbrev agent : SnmpClient
agent = record { get = λ oids. ok interfaces; walk = λ bulk oid fn s. each fn interfaces none s }

abbrev snmp : Snmp
snmp = record {
  cfg = manager;
  connect = λ dev auth settings. ok agent;
  type_name = λ t. [];
  show = λ v. [];
  decimal = λ n. [];
  parse_duration = λ s. none;
}

abbrev in_time : Context
in_time = record { at_call = λ n. none; at_end = none }

abbrev two_interfaces : WalkRequest
two_interfaces = record {
  device = str "sw1";
  oid = str "1";
  max_oids = pos 2;
  max_repetitions = pos 0;
}

abbrev same_letters : Str → Str
same_letters s = s

-- The names that the tests compute with.
opened : Unit {0}
unfolding find auth_of get_snmp_device resolve_snmp_auth acquire pdu_value pdu_var resolve_settings
    find_device open_device snmp_msg_flags snmp_auth_protocol snmp_priv_protocol usm_of version_of
    build_gosnmp walk_fn finish walk_open do_walk walk each str_beq lookup trim_space to_lower
    to_upper is_ascii lower_byte upper_byte contains
opened = tt

resolve_settings_example :
    (pos 0 <ℤ (resolve_settings snmp switch).timeout)
    × (pos 0 ≤ℤ (resolve_settings snmp switch).retries)
    × (pos 0 <ℤ (resolve_settings snmp switch).walk_max_oids)
    × ((resolve_settings snmp switch).max_repetitions < 2 ^ 32)
resolve_settings_example = resolve_settings_lem snmp switch

abbrev session : GoSnmp
session = record {
  target = str "10.0.0.9";
  port = 161;
  timeout = (resolve_settings snmp switch).timeout;
  retries = (resolve_settings snmp switch).retries;
  max_repetitions = (resolve_settings snmp switch).max_repetitions;
  context_name = [];
  version = version3 auth_priv (record {
    user_name = str "op";
    auth_protocol = sha;
    auth_passphrase = str "a";
    priv_protocol = aes;
    priv_passphrase = str "p";
  });
}

session_built :
    build_gosnmp same_letters same_letters switch operator (resolve_settings snmp switch)
    ≡ ok session
unfolding opened
session_built = refl

build_gosnmp_example : IsSafe same_letters same_letters operator session.version
build_gosnmp_example =
    build_gosnmp_lem same_letters same_letters switch operator (resolve_settings snmp switch)
      session session_built

agent_opened :
    open_device snmp switch (with_repetitions (resolve_settings snmp switch) two_interfaces)
    ≡ ok agent
unfolding opened
agent_opened = refl

two_at_most : max_of (resolve_settings snmp switch) two_interfaces ≡ pos 2
unfolding opened
two_at_most = refl

walk_open_example :
    walk_open snmp in_time false switch (resolve_settings snmp switch) (str "1") two_interfaces ≡ (
      if ltb 2 (length interfaces)
      then ok (vars_result (str "sw1") (take 2 (map (pdu_var snmp) interfaces)) true)
      else ended snmp in_time
          ((λ n. refl), refl)
          2
          (str "sw1")
          (map (pdu_var snmp) interfaces)
          none)
walk_open_example =
    walk_open_lem snmp in_time ((λ n. refl), refl) 2 false switch (resolve_settings snmp switch)
      (str "1") two_interfaces agent interfaces none agent_opened two_at_most (λ fn s. refl)

-- The slot that a walk takes is free again at its end.
walk_gives_back : (walk snmp in_time slot_free two_interfaces 7).1 ≡ 7
unfolding opened
walk_gives_back = refl

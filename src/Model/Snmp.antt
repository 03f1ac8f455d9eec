-- ===== src/Model/Snmp.antt =====
-- model/snmp.go. A pointer that may be nil is an Option.
use ops_mcp.Prelude.{
  Bool, not, List, Option, none, some, [], nat_eq, Str, str, is_empty, ℤ, Dict, if◌then◌else◌,
}

pub record SnmpAuth : Type 0 where
  pub version : Str
  pub community : Str
  pub security_level : Str
  pub username : Str
  pub auth_protocol : Str
  pub auth_password : Str
  pub priv_protocol : Str
  pub priv_password : Str

pub record SnmpAuthSummary : Type 0 where
  pub version : Str
  pub security_level : Str
  pub username : Str
  pub auth_protocol : Str
  pub priv_protocol : Str
  pub has_community : Bool
  pub has_auth_pass : Bool
  pub has_priv_pass : Bool

-- ToSummary of an SNMPAuth.
unfoldable pub auth_summary : SnmpAuth → SnmpAuthSummary
auth_summary a = record {
  version = a.version;
  security_level = a.security_level;
  username = a.username;
  auth_protocol = a.auth_protocol;
  priv_protocol = a.priv_protocol;
  has_community = not (is_empty a.community);
  has_auth_pass = not (is_empty a.auth_password);
  has_priv_pass = not (is_empty a.priv_password);
}

pub record SnmpCredential : Type 0 where
  pub name : Str
  pub auth : SnmpAuth

pub record SnmpAddress : Type 0 where
  pub host : Str
  pub port : ℤ

pub record SnmpDevice : Type 0 where
  pub name : Str
  pub description : Str
  pub labels : Dict Str
  pub address : SnmpAddress
  pub credential : Str
  pub auth : Option SnmpAuth
  pub context : Str
  pub timeout : Str
  pub retries : Option ℤ
  pub max_repetitions : Option ℤ
  pub walk_max_oids : Option ℤ

pub record SnmpDeviceSummary : Type 0 where
  pub name : Str
  pub description : Str
  pub labels : Dict Str
  pub address : SnmpAddress
  pub auth_mode : Str
  pub credential : Str
  pub auth : Option SnmpAuthSummary
  pub context : Str
  pub timeout : Str
  pub retries : Option ℤ
  pub max_repetitions : Option ℤ
  pub walk_max_oids : Option ℤ

-- ToSummary of an SNMPDevice.
unfoldable pub device_summary : SnmpDevice → SnmpDeviceSummary
unfolding auth_summary
device_summary d =
    let summary : SnmpDeviceSummary = record {
      name = d.name;
      description = d.description;
      labels = d.labels;
      address = d.address;
      auth_mode = [];
      credential = [];
      auth = none;
      context = d.context;
      timeout = d.timeout;
      retries = d.retries;
      max_repetitions = d.max_repetitions;
      walk_max_oids = d.walk_max_oids;
    } in
    if not (is_empty d.credential)
    then record summary { auth_mode = str "credential"; credential = d.credential }
    else elim d.auth [
      | none ↦ summary
      | some a ↦ record summary { auth_mode = str "inline"; auth = some (auth_summary a) }
    ]

pub record SnmpDefaults : Type 0 where
  pub timeout : Str
  pub retries : ℤ
  pub max_repetitions : ℤ
  pub walk_max_oids : ℤ

pub record SnmpFile : Type 0 where
  pub credentials : List SnmpCredential
  pub devices : List SnmpDevice
  pub defaults : SnmpDefaults

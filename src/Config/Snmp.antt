-- ===== src/Config/Snmp.antt =====
-- loadSNMP of config/config.go, with its defaults and the validation of authentication entries.
pub mod Valid
use ops_mcp.Config.Errors.{
  Resource, Where, of_credential, of_device, AuthFault, needs_community, needs_username,
  needs_auth_password, needs_priv_password, invalid_level, invalid_version, ConfigError,
  missing_name, duplicate_name, missing_host, not_one_of_credential_or_auth, unknown_credential,
  bad_auth, FileRead,
}
use ops_mcp.Config.Load.{or_default_port, load_optional}
use ops_mcp.Model.Snmp.{SnmpAuth, SnmpCredential, SnmpDevice, SnmpDefaults, SnmpFile}
use ops_mcp.Prelude.{
  Bool, not, Option, none, some, [], ◌∷◌, if◌then◌else◌, nat_eq, ◌==◌, ℤ, pos, is_nonpos, Str, str,
  str_beq, str_eq, is_empty, trim_space, to_lower, Dict, has, insert, Result, ok, err, ◌>>=◌,
  refuse, ◌>>◌, for_each,
}

abbrev pub default_snmp_defaults : SnmpDefaults
default_snmp_defaults = record {
  timeout = str "5s";
  retries = pos 1;
  max_repetitions = pos 25;
  walk_max_oids = pos 1000;
}

abbrev pub or_if_nonpos : ℤ → ℤ → ℤ
or_if_nonpos default n = if is_nonpos n then default else n

unfoldable pub apply_snmp_defaults : SnmpDefaults → SnmpDefaults
apply_snmp_defaults d =
    let out = default_snmp_defaults in
    record {
      timeout = if is_empty d.timeout then out.timeout else d.timeout;
      retries = or_if_nonpos out.retries d.retries;
      max_repetitions = or_if_nonpos out.max_repetitions d.max_repetitions;
      walk_max_oids = or_if_nonpos out.walk_max_oids d.walk_max_oids;
    }

abbrev pub allow : Bool → AuthFault → Result AuthFault (Unit {0})
allow present fault = if present then ok tt else err fault

unfoldable pub with_snmp_port : SnmpDevice → SnmpDevice
with_snmp_port d = record d {
  address = record d.address { port = or_default_port (pos 161) d.address.port };
}

-- The credentials, the devices and the defaults of snmp.yaml.
abbrev pub Snmp : Type 0
Snmp = Dict SnmpCredential × Dict SnmpDevice × SnmpDefaults

-- `unicode` is strings.ToLower outside ASCII.
module _ (unicode : Str → Str) where
  unfoldable pub validate_security_level : SnmpAuth → Result AuthFault (Unit {0})
  unfolding str_beq
  validate_security_level a =
      let given_level = to_lower unicode (trim_space a.security_level) in
      let level = if is_empty given_level then str "noauthnopriv" else given_level in
      if level == str "noauthnopriv"
      then ok tt
      else if level == str "authnopriv"
      then allow (not (is_empty a.auth_password)) needs_auth_password
      else if level == str "authpriv"
      then allow (not (is_empty a.auth_password)) needs_auth_password
        >> allow (not (is_empty a.priv_password)) needs_priv_password
      else err (invalid_level a.security_level)

  unfoldable pub validate_snmp_auth : SnmpAuth → Result AuthFault (Unit {0})
  validate_snmp_auth a =
      let version = to_lower unicode (trim_space a.version) in
      if version == str "2c"
      then allow (not (is_empty a.community)) needs_community
      else if version == str "3"
      then allow (not (is_empty a.username)) needs_username >> validate_security_level a
      else err (invalid_version a.version)

  -- The message of a fault names the entry that has it.
  abbrev pub at_entry : Where → Result AuthFault (Unit {0}) → Result ConfigError (Unit {0})
  at_entry owner (ok done) = ok done
  at_entry owner (err fault) = err (bad_auth owner fault)

  unfoldable pub add_credential :
      SnmpCredential → Dict SnmpCredential → Result ConfigError (Dict SnmpCredential)
  add_credential c creds = do
    refuse (is_empty c.name) (missing_name Resource.snmp_credentials)
    refuse (has c.name creds) (duplicate_name Resource.snmp_credentials c.name)
    at_entry (of_credential c.name) (validate_snmp_auth c.auth)
    ok (insert c.name c creds)

  -- Exactly one of a known credential and a valid inline entry; the empty name is no credential.
  unfoldable pub check_choice :
      Dict SnmpCredential → Str → Str → Option SnmpAuth → Result ConfigError (Unit {0})
  check_choice creds name [] none = err (not_one_of_credential_or_auth name)
  check_choice creds name [] (some auth) = at_entry (of_device name) (validate_snmp_auth auth)
  check_choice creds name (c ∷ s) none =
      refuse (not (has (c ∷ s) creds)) (unknown_credential name (c ∷ s))
  check_choice creds name (c ∷ s) (some auth) = err (not_one_of_credential_or_auth name)

  unfoldable pub check_device_auth :
      Dict SnmpCredential → SnmpDevice → Result ConfigError (Unit {0})
  check_device_auth creds d = check_choice creds d.name d.credential d.auth

  unfoldable pub add_device :
      Dict SnmpCredential → SnmpDevice → Dict SnmpDevice → Result ConfigError (Dict SnmpDevice)
  add_device creds d devs = do
    refuse (is_empty d.name) (missing_name Resource.snmp_devices)
    refuse (has d.name devs) (duplicate_name Resource.snmp_devices d.name)
    refuse (is_empty d.address.host) (missing_host d.name)
    check_device_auth creds d
    ok (insert d.name (with_snmp_port d) devs)

  unfoldable pub load_snmp_file : SnmpFile → Result ConfigError Snmp
  load_snmp_file file = for_each add_credential file.credentials [] >>= λ creds.
      for_each (add_device creds) file.devices [] >>= λ devs.
      ok (creds, devs, apply_snmp_defaults file.defaults)

  unfoldable pub load_snmp : (Str → FileRead SnmpFile) → Str → Result ConfigError Snmp
  load_snmp read path =
      load_optional Resource.snmp path ([], [], default_snmp_defaults) load_snmp_file (read path)

-- ===== src/Config/Errors.antt =====
-- The errors of internal/config, with what their messages name, and what reading a file gives.
use ops_mcp.Prelude.{Str}

pub data Resource : Type 0 where
  hosts databases redis kafka apis commands snmp snmp_credentials snmp_devices : Resource

-- What an authentication entry belongs to, as the messages name it.
pub data Where : Type 0 where
  of_credential of_device : Str → Where

pub data AuthFault : Type 0 where
  needs_community needs_username needs_auth_password needs_priv_password : AuthFault
  invalid_level invalid_version : Str → AuthFault

pub data ConfigError : Type 0 where
  read_failed parse_failed : Resource → Str → ConfigError
  missing_name : Resource → ConfigError
  duplicate_name : Resource → Str → ConfigError
  missing_brokers missing_host not_one_of_credential_or_auth : Str → ConfigError
  unknown_credential : Str → Str → ConfigError
  bad_auth : Where → AuthFault → ConfigError
  missing_path : Str → ConfigError
  path_not_absolute : Str → Str → ConfigError
  env_not_set : Str → Str → ConfigError
  openapi_path_required base_url_required : Str → ConfigError

-- os.ReadFile followed by yaml.Unmarshal: no such file, another read error, a file that does not
-- parse, or the decoded file.
pub data FileRead {ℓ} (F : Type ℓ) : Type ℓ where
  missing unreadable malformed : FileRead F
  decoded : F → FileRead F

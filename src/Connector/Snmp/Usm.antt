-- ===== src/Connector/Snmp/Usm.antt =====
-- buildGoSNMP of connector/snmp/snmp.go and the protocols of a session. `lower` and `upper` are
-- strings.ToLower and strings.ToUpper of a text that is not ASCII.
pub mod Protected
use ops_mcp.Connector.Snmp.Types.{DeviceSettings}
use ops_mcp.Model.Snmp.{SnmpAuth, SnmpDevice}
use ops_mcp.Prelude.{
  ℕ, ◌-◌, ◌%◌, ◌^◌, ◌||◌, arith, if◌then◌else◌, HasEq, nat_eq, ◌==◌, ℤ, pos, negsuc, Str, str,
  str_eq, is_empty, trim_space, to_lower, to_upper, Result, ok, err, ◌>>=◌, ◌>>◌,
}

pub data MsgFlags : Type 0 where
  no_auth_no_priv auth_no_priv auth_priv : MsgFlags

pub data AuthProtocol : Type 0 where
  no_auth md5 sha sha224 sha256 sha384 sha512 : AuthProtocol

pub data PrivProtocol : Type 0 where
  no_priv des aes aes192 aes256 : PrivProtocol

pub data UsmError : Type 0 where
  bad_version bad_security_level bad_auth_protocol bad_priv_protocol : Str → UsmError

pub record UsmParameters : Type 0 where
  pub user_name : Str
  pub auth_protocol : AuthProtocol
  pub auth_passphrase : Str
  pub priv_protocol : PrivProtocol
  pub priv_passphrase : Str

-- The community of version 2c, or the flags and the parameters of version 3.
pub data Version : Type 0 where
  version2c : Str → Version
  version3 : MsgFlags → UsmParameters → Version

pub record GoSnmp : Type 0 where
  pub target : Str
  pub port : ℕ
  pub timeout : ℤ
  pub retries : ℤ
  pub max_repetitions : ℕ
  pub context_name : Str
  pub version : Version

-- The conversion of an int to an unsigned integer of w bits.
abbrev pub to_uint : ℕ → ℤ → ℕ
to_uint w (pos n) = n % 2 ^ w
to_uint w (negsuc n) = 2 ^ w - 1 - n % 2 ^ w

-- The protocol that a security level asks for where none is configured.
abbrev pub default_auth : MsgFlags → AuthProtocol → AuthProtocol
default_auth auth_no_priv no_auth = sha
default_auth auth_priv no_auth = sha
default_auth flags p = p

abbrev pub default_priv : MsgFlags → PrivProtocol → PrivProtocol
default_priv auth_priv no_priv = aes
default_priv flags p = p

module _ (lower upper : Str → Str) where
  unfoldable pub snmp_msg_flags : Str → Result UsmError MsgFlags
  snmp_msg_flags level =
      let l = to_lower lower (trim_space level) in
      if is_empty l || l == str "noauthnopriv"
      then ok no_auth_no_priv
      else if l == str "authnopriv"
      then ok auth_no_priv
      else if l == str "authpriv"
      then ok auth_priv
      else err (bad_security_level level)

  unfoldable pub snmp_auth_protocol : Str → Result UsmError AuthProtocol
  snmp_auth_protocol p =
      let u = to_upper upper (trim_space p) in
      if is_empty u
      then ok no_auth
      else if u == str "MD5"
      then ok md5
      else if u == str "SHA"
      then ok sha
      else if u == str "SHA224"
      then ok sha224
      else if u == str "SHA256"
      then ok sha256
      else if u == str "SHA384"
      then ok sha384
      else if u == str "SHA512"
      then ok sha512
      else err (bad_auth_protocol p)

  unfoldable pub snmp_priv_protocol : Str → Result UsmError PrivProtocol
  snmp_priv_protocol p =
      let u = to_upper upper (trim_space p) in
      if is_empty u
      then ok no_priv
      else if u == str "DES"
      then ok des
      else if u == str "AES" || u == str "AES128"
      then ok aes
      else if u == str "AES192"
      then ok aes192
      else if u == str "AES256"
      then ok aes256
      else err (bad_priv_protocol p)

  unfoldable pub usm_of : SnmpAuth → Result UsmError Version
  usm_of auth = do
    flags ← snmp_msg_flags auth.security_level
    auth_proto ← snmp_auth_protocol auth.auth_protocol
    priv_proto ← snmp_priv_protocol auth.priv_protocol
    ok (
        version3 flags (record {
          user_name = auth.username;
          auth_protocol = default_auth flags auth_proto;
          auth_passphrase = auth.auth_password;
          priv_protocol = default_priv flags priv_proto;
          priv_passphrase = auth.priv_password;
        }))

  unfoldable pub version_of : SnmpAuth → Result UsmError Version
  version_of auth =
      let v = to_lower lower (trim_space auth.version) in
      if v == str "2c"
      then ok (version2c auth.community)
      else if v == str "3"
      then usm_of auth
      else err (bad_version auth.version)

  unfoldable pub build_gosnmp : SnmpDevice → SnmpAuth → DeviceSettings → Result UsmError GoSnmp
  build_gosnmp device auth settings = version_of auth >>= λ version. ok (record {
    target = device.address.host;
    port = to_uint 16 device.address.port;
    timeout = settings.timeout;
    retries = settings.retries;
    max_repetitions = settings.max_repetitions;
    context_name = device.context;
    version = version;
  })

-- ===== src/Connector/Snmp/Usm/Protected.antt =====
-- The protocols of the sessions that buildGoSNMP of connector/snmp/snmp.go builds.
use ops_mcp.Connector.Snmp.Types.{DeviceSettings}
use ops_mcp.Model.Snmp.{SnmpAuth, SnmpDevice}
use mathlib.Core.Path.{subst}
use ops_mcp.Connector.Snmp.Usm.{
  MsgFlags, no_auth_no_priv, auth_no_priv, auth_priv, AuthProtocol, no_auth, md5, sha, sha224,
  sha256, sha384, sha512, PrivProtocol, no_priv, des, aes, aes192, aes256, UsmError, UsmParameters,
  Version, version2c, version3, GoSnmp, snmp_msg_flags, snmp_auth_protocol, snmp_priv_protocol,
  default_auth, default_priv, usm_of, version_of, build_gosnmp,
}
use ops_mcp.Prelude.{
  ◌≡◌, refl, ◌≢◌, Bool, true, false, if◌then◌else◌, nat_eq, ◌==◌, Str, str, str_eq, trim_space,
  to_lower, ok, err, ok_injective, >>=-eq-ok, [], str_beq_iff, ◌⊎◌, ◌||◌, inl, inr, is_empty,
  is_empty_iff,
}

-- The protocols that a security level stands for are in use.
unfoldable pub IsProtected : MsgFlags → UsmParameters → Type 0
IsProtected no_auth_no_priv usm = Unit {0}
IsProtected auth_no_priv usm = usm.auth_protocol ≢ no_auth
IsProtected auth_priv usm = (usm.auth_protocol ≢ no_auth) × (usm.priv_protocol ≢ no_priv)

-- The flags of a security level, in any case of its letters and with any space around it.
abbrev pub IsLevel : Str → MsgFlags → Type 0
IsLevel level no_auth_no_priv = (level ≡ []) ⊎ (level ≡ str "noauthnopriv")
IsLevel level auth_no_priv = level ≡ str "authnopriv"
IsLevel level auth_priv = level ≡ str "authpriv"

-- A version of an entry, which names it: 2c with its community, or 3 with its user, its passwords
-- and the flags of its security level with their protocols.
abbrev pub IsSafe : (Str → Str) → (Str → Str) → SnmpAuth → Version → Type 0
IsSafe lower upper auth (version2c community) =
    (to_lower lower (trim_space auth.version) ≡ str "2c") × (community ≡ auth.community)
IsSafe lower upper auth (version3 flags usm) =
    (to_lower lower (trim_space auth.version) ≡ str "3")
    × IsLevel (to_lower lower (trim_space auth.security_level)) flags
    × (usm.user_name ≡ auth.username)
    × (usm.auth_passphrase ≡ auth.auth_password)
    × (usm.priv_passphrase ≡ auth.priv_password)
    × IsProtected flags usm

default_auth-set : (p : AuthProtocol) → default_auth auth_no_priv p ≢ no_auth
default_auth-set no_auth h = cc h
default_auth-set md5 h = cc h
default_auth-set sha h = cc h
default_auth-set sha224 h = cc h
default_auth-set sha256 h = cc h
default_auth-set sha384 h = cc h
default_auth-set sha512 h = cc h

default_auth-set_priv : (p : AuthProtocol) → default_auth auth_priv p ≢ no_auth
default_auth-set_priv no_auth h = cc h
default_auth-set_priv md5 h = cc h
default_auth-set_priv sha h = cc h
default_auth-set_priv sha224 h = cc h
default_auth-set_priv sha256 h = cc h
default_auth-set_priv sha384 h = cc h
default_auth-set_priv sha512 h = cc h

default_priv-set : (p : PrivProtocol) → default_priv auth_priv p ≢ no_priv
default_priv-set no_priv h = cc h
default_priv-set des h = cc h
default_priv-set aes h = cc h
default_priv-set aes192 h = cc h
default_priv-set aes256 h = cc h

defaults-IsProtected :
    (flags : MsgFlags) (user auth_pass priv_pass : Str) (a : AuthProtocol) (p : PrivProtocol)
    → IsProtected flags (record {
      user_name = user;
      auth_protocol = default_auth flags a;
      auth_passphrase = auth_pass;
      priv_protocol = default_priv flags p;
      priv_passphrase = priv_pass;
    })
unfolding IsProtected
defaults-IsProtected no_auth_no_priv user auth_pass priv_pass a p = tt
defaults-IsProtected auth_no_priv user auth_pass priv_pass a p = default_auth-set a
defaults-IsProtected auth_priv user auth_pass priv_pass a p =
    (default_auth-set_priv a, default_priv-set p)

module _ (lower upper : Str → Str) where
  IsLevel-of :
      (level : Str) (flags : MsgFlags)
      → snmp_msg_flags lower upper level ≡ ok flags
      → IsLevel (to_lower lower (trim_space level)) flags
  unfolding snmp_msg_flags
  IsLevel-of level flags h =
      let l = to_lower lower (trim_space level) in
      choose (is_empty l) (l == str "noauthnopriv") (l == str "authnopriv") (l == str "authpriv")
        (is_empty_iff l).0 (str_beq_iff l (str "noauthnopriv")).0
        (str_beq_iff l (str "authnopriv")).0 (str_beq_iff l (str "authpriv")).0 h
    where
      choose :
          (blank none_text auth_text priv_text : Bool)
          → (blank ≡ true → to_lower lower (trim_space level) ≡ [])
          → (none_text ≡ true → to_lower lower (trim_space level) ≡ str "noauthnopriv")
          → (auth_text ≡ true → to_lower lower (trim_space level) ≡ str "authnopriv")
          → (priv_text ≡ true → to_lower lower (trim_space level) ≡ str "authpriv")
          → (if blank || none_text
              then ok no_auth_no_priv
              else if auth_text
              then ok auth_no_priv
              else if priv_text
              then ok auth_priv
              else err (UsmError.bad_security_level level))
            ≡ ok flags
          → IsLevel (to_lower lower (trim_space level)) flags
      choose true n a p fb fn fa fp e =
          subst (IsLevel (to_lower lower (trim_space level))) (ok_injective e) (inl (fb refl))
      choose false true a p fb fn fa fp e =
          subst (IsLevel (to_lower lower (trim_space level))) (ok_injective e) (inr (fn refl))
      choose false false true p fb fn fa fp e =
          subst (IsLevel (to_lower lower (trim_space level))) (ok_injective e) (fa refl)
      choose false false false true fb fn fa fp e =
          subst (IsLevel (to_lower lower (trim_space level))) (ok_injective e) (fp refl)
      choose false false false false fb fn fa fp e = absurd (cc e)

  usm_of-IsSafe :
      (auth : SnmpAuth) (v : Version)
      → to_lower lower (trim_space auth.version) ≡ str "3"
      → usm_of lower upper auth ≡ ok v
      → IsSafe lower upper auth v
  unfolding usm_of
  usm_of-IsSafe auth v three h =
      let (flags, e0, h0) = >>=-eq-ok (snmp_msg_flags lower upper auth.security_level) _ h in
      let (a, e1, h1) = >>=-eq-ok (snmp_auth_protocol lower upper auth.auth_protocol) _ h0 in
      let (p, e2, h2) = >>=-eq-ok (snmp_priv_protocol lower upper auth.priv_protocol) _ h1 in
      subst (IsSafe lower upper auth) (ok_injective h2) (
        three,
        IsLevel-of auth.security_level flags e0,
        refl,
        refl,
        refl,
        defaults-IsProtected flags auth.username auth.auth_password auth.priv_password a p,
      )

  version_of-IsSafe :
      (auth : SnmpAuth) (v : Version)
      → version_of lower upper auth ≡ ok v
      → IsSafe lower upper auth v
  unfolding version_of
  version_of-IsSafe auth v h =
      let text = to_lower lower (trim_space auth.version) in
      choose (text == str "2c") (text == str "3") (str_beq_iff text (str "2c")).0
        (str_beq_iff text (str "3")).0 h
    where
      choose :
          (two three : Bool)
          → (two ≡ true → to_lower lower (trim_space auth.version) ≡ str "2c")
          → (three ≡ true → to_lower lower (trim_space auth.version) ≡ str "3")
          → (if two
              then ok (version2c auth.community)
              else if three
              then usm_of lower upper auth
              else err (UsmError.bad_version auth.version))
            ≡ ok v
          → IsSafe lower upper auth v
      choose true three f2 f3 e = subst (IsSafe lower upper auth) (ok_injective e) (f2 refl, refl)
      choose false true f2 f3 e = usm_of-IsSafe auth v (f3 refl) e
      choose false false f2 f3 e = absurd (cc e)

  -- A session that is built is of the version that its entry names: of version 2c with its
  -- community, or of version 3 with its user, its passwords, the flags of its security level, and an
  -- authentication and an encryption protocol wherever the level stands for them.
  pub build_gosnmp_lem :
      (device : SnmpDevice) (auth : SnmpAuth) (settings : DeviceSettings) (g : GoSnmp)
      → build_gosnmp lower upper device auth settings ≡ ok g
      → IsSafe lower upper auth g.version
  unfolding build_gosnmp
  build_gosnmp_lem device auth settings g h =
      let (v, e, h0) = >>=-eq-ok (version_of lower upper auth) _ h in
      subst (λ s. IsSafe lower upper auth s.version) (ok_injective h0) (version_of-IsSafe auth v e)

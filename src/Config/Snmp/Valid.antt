-- ===== src/Config/Snmp/Valid.antt =====
-- loadSNMP: the credentials and devices that it accepts, and the authentication of a device.
use ops_mcp.Config.Errors.{
  Resource, Where, of_credential, of_device, missing_host, FileRead, missing, unreadable, malformed,
  decoded,
}
use ops_mcp.Config.Snmp.{
  validate_snmp_auth, at_entry, add_credential, check_choice, check_device_auth, add_device,
  with_snmp_port, Snmp, load_snmp_file, load_snmp,
}
use ops_mcp.Config.Named.{refuse_iff, then_iff, for_each_iff, lookup-entries}
use ops_mcp.Config.Loaded.{named_iff, bind_iff}
use ops_mcp.Model.Snmp.{SnmpAuth, SnmpCredential, SnmpDevice, SnmpFile}
use mathlib.Core.Path.{subst}
use ops_mcp.Prelude.{
  ℕ, ◌≡◌, refl, ◌≢◌, ◌↔◌, inl, inr, false, Option, none, some, List, [], ◌∷◌, Option-cases, nat_eq,
  All-at, Str, str_eq, is_empty, Dict, lookup, has, insert, ok, ok_injective, Result-cases,
  >>=-eq-ok, for_each,
}

-- Under `lower`, an entry passes the validation.
abbrev pub IsValid : (Str → Str) → SnmpAuth → Type 0
IsValid lower a = validate_snmp_auth lower a ≡ ok tt

at_entry_iff :
    (lower : Str → Str) (owner : Where) (a : SnmpAuth)
    → (at_entry lower owner (validate_snmp_auth lower a) ≡ ok tt) ↔ IsValid lower a
at_entry_iff lower owner a = elim (Result-cases (validate_snmp_auth lower a)) [
  | inl (e, h) ↦ rw h (λ p. absurd (cc p), λ p. absurd (cc p))
  | inr (a, h) ↦ rw h (λ _. refl, λ _. refl)
]

AcceptsCredential : (Str → Str) → SnmpCredential → Type 0
AcceptsCredential lower c = (c.name ≢ []) × IsValid lower c.auth

add_credential_iff :
    (lower : Str → Str) (c : SnmpCredential) (m m' : Dict SnmpCredential)
    → (add_credential lower c m ≡ ok m')
      ↔ (AcceptsCredential lower c × (has c.name m ≡ false) × (m' ≡ insert c.name c m))
unfolding add_credential AcceptsCredential
add_credential_iff lower c m m' =
    let step =
      named_iff Resource.snmp_credentials c.name (has c.name m) _ m'
        (then_iff (at_entry lower (of_credential c.name) (validate_snmp_auth lower c.auth)) _ m') in
    let valid = at_entry_iff lower (of_credential c.name) c.auth in
    let bind = bind_iff (insert c.name c m) m' in
    (
      λ h. let (named, new, (v, e)) = step.0 h in ((named, valid.0 v), new, bind.0 e),
      λ h. let ((named, v), new, e) = h in step.1 (named, new, (valid.1 v, bind.1 e)),
    )

AcceptsDevice : (Str → Str) → Dict SnmpCredential → SnmpDevice → Type 0
AcceptsDevice lower creds d =
    (d.name ≢ []) × (is_empty d.address.host ≡ false) × (check_device_auth lower creds d ≡ ok tt)

add_device_iff :
    (lower : Str → Str) (creds : Dict SnmpCredential) (d : SnmpDevice) (m m' : Dict SnmpDevice)
    → (add_device lower creds d m ≡ ok m') ↔ (
        AcceptsDevice lower creds d
        × (has d.name m ≡ false)
        × (m' ≡ insert d.name (with_snmp_port d) m))
unfolding add_device AcceptsDevice
add_device_iff lower creds d m m' =
    let inner = then_iff (check_device_auth lower creds d) _ m' in
    let step =
      named_iff Resource.snmp_devices d.name (has d.name m) _ m'
        (refuse_iff (is_empty d.address.host) (missing_host d.name) _ m') in
    let bind = bind_iff (insert d.name (with_snmp_port d) m) m' in
    (
      λ h.
          let (named, new, (host, r)) = step.0 h in
          let (c, e) = inner.0 r in ((named, host, c), new, bind.0 e),
      λ h. let ((named, host, c), new, e) = h in step.1 (named, new, (host, inner.1 (c, bind.1 e))),
    )

-- Every credential is valid.
ValidCredentials : (Str → Str) → Dict SnmpCredential → Type 0
ValidCredentials lower creds =
    (k : Str) (c : SnmpCredential) → lookup k creds ≡ some c → IsValid lower c.auth

-- The name is of a loaded credential, or it is empty and there is a valid entry of the device.
pub data Authenticated (lower : Str → Str) (creds : Dict SnmpCredential)
    : Str → Option SnmpAuth → Type 0 where
  by_credential :
      {b : ℕ} {s : Str} {auth : Option SnmpAuth} (c : SnmpCredential)
      → lookup (b ∷ s) creds ≡ some c
      → IsValid lower c.auth
      → Authenticated lower creds (b ∷ s) auth
  by_entry : (a : SnmpAuth) → IsValid lower a → Authenticated lower creds [] (some a)

check_choice-Authenticated :
    (lower : Str → Str) (creds : Dict SnmpCredential) (name credential : Str)
    (auth : Option SnmpAuth)
    → ValidCredentials lower creds
    → check_choice lower creds name credential auth ≡ ok tt
    → Authenticated lower creds credential auth
unfolding check_choice ValidCredentials
check_choice-Authenticated lower creds name [] none valid h = absurd (cc h)
check_choice-Authenticated lower creds name [] (some a) valid h =
    by_entry a ((at_entry_iff lower (of_device name) a).0 h)
check_choice-Authenticated lower creds name (b ∷ s) (some a) valid h = absurd (cc h)
check_choice-Authenticated lower creds name (b ∷ s) none valid h =
    elim (Option-cases (lookup (b ∷ s) creds)) [
      | inl e ↦ absurd (cc (rw e at h))
      | inr (c, e) ↦ by_credential c e (valid (b ∷ s) c e)
    ]

-- Every device of a load can authenticate.
unfoldable pub IsAuthenticated : (Str → Str) → Snmp → Type 0
IsAuthenticated lower (creds, devs, defaults) =
    (k : Str) (d : SnmpDevice)
    → lookup k devs ≡ some d
    → Authenticated lower creds d.credential d.auth

credentials_valid :
    (lower : Str → Str) (cs : List SnmpCredential) (creds : Dict SnmpCredential)
    → for_each (add_credential lower) cs [] ≡ ok creds
    → ValidCredentials lower creds
unfolding ValidCredentials AcceptsCredential
credentials_valid lower cs creds h k c found =
    let (goods, apart, e) =
      (for_each_iff (λ c. c.name) (AcceptsCredential lower) (λ c. c) (add_credential lower)
          (add_credential_iff lower) cs creds).0
        h in
    let (x, member, same) =
      lookup-entries (λ c. c.name) (λ c. c) cs k c (subst (λ m. lookup k m ≡ some c) e found) in
    subst (λ c. IsValid lower c.auth) same (All-at (AcceptsCredential lower) goods member).1

add_device-Authenticated :
    (lower : Str → Str) (creds : Dict SnmpCredential) (ds : List SnmpDevice)
    (devs : Dict SnmpDevice)
    → ValidCredentials lower creds
    → for_each (add_device lower creds) ds [] ≡ ok devs
    → (k : Str) (d : SnmpDevice) → lookup k devs ≡ some d
    → Authenticated lower creds d.credential d.auth
unfolding AcceptsDevice check_device_auth with_snmp_port
add_device-Authenticated lower creds ds devs valid h k d found =
    let (goods, apart, e) =
      (for_each_iff (λ d. d.name) (AcceptsDevice lower creds) with_snmp_port
          (add_device lower creds) (add_device_iff lower creds) ds devs).0
        h in
    let (x, member, same) =
      lookup-entries (λ d. d.name) with_snmp_port ds k d
        (subst (λ m. lookup k m ≡ some d) e found) in
    subst (λ d. Authenticated lower creds d.credential d.auth) same
      (check_choice-Authenticated lower creds x.name x.credential x.auth valid
        (All-at (AcceptsDevice lower creds) goods member).2)

load_snmp_file-IsAuthenticated :
    (lower : Str → Str) (file : SnmpFile) (loaded : Snmp)
    → load_snmp_file lower file ≡ ok loaded
    → IsAuthenticated lower loaded
unfolding load_snmp_file IsAuthenticated
load_snmp_file-IsAuthenticated lower file loaded h =
    let (creds, hc, h1) = >>=-eq-ok (for_each (add_credential lower) file.credentials []) _ h in
    let (devs, hd, h2) = >>=-eq-ok (for_each (add_device lower creds) file.devices []) _ h1 in
    subst (IsAuthenticated lower) (ok_injective h2) (
      add_device-Authenticated lower creds file.devices devs
        (credentials_valid lower file.credentials creds hc) hd)

pub load_snmp-IsAuthenticated :
    (lower : Str → Str) (read : Str → FileRead SnmpFile) (path : Str) (loaded : Snmp)
    → load_snmp lower read path ≡ ok loaded
    → IsAuthenticated lower loaded
unfolding load_snmp IsAuthenticated lookup
load_snmp-IsAuthenticated lower read path loaded h = go (read path) refl
  where
    go : (r : FileRead SnmpFile) → read path ≡ r → IsAuthenticated lower loaded
    go missing e =
        subst (IsAuthenticated lower) (ok_injective (rw (e, load_snmp) at h))
          (λ k d found. absurd (cc found))
    go unreadable e = absurd (cc (rw (e, load_snmp) at h))
    go malformed e = absurd (cc (rw (e, load_snmp) at h))
    go (decoded file) e = load_snmp_file-IsAuthenticated lower file loaded (rw (e, load_snmp) at h)

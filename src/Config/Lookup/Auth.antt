-- ===== src/Config/Lookup/Auth.antt =====
-- ResolveSNMPAuth on the managers that the program produces.
use ops_mcp.Config.Errors.{Resource}
use ops_mcp.Config.Snmp.Valid.{
  IsValid, Authenticated, by_credential, by_entry, IsAuthenticated, load_snmp-IsAuthenticated,
}
use ops_mcp.Config.Manager.{Manager, System}
use ops_mcp.Model.Config.{AppConfig}
use ops_mcp.Config.Manager.Parts.{load_resources-parts, snmp_of}
use ops_mcp.Config.Manager.Reload.{Reachable, Reachable-IsConsistent}
use ops_mcp.Config.Lookup.{or_not_found, find, auth_of, resolve_snmp_auth}
use ops_mcp.Model.Snmp.{SnmpAuth, SnmpCredential}
use mathlib.Core.Path.{subst}
use ops_mcp.Prelude.{
  ◌≡◌, refl, ap, inl, inr, true, Option, some, Option-cases, nat_eq, Str, str_eq, Dict, lookup, has,
  ok,
}

find-some {ℓ} :
    {V : Type ℓ} (what : Resource) (name : Str) (m : Dict V) (v : V)
    → lookup name m ≡ some v
    → find what name m ≡ ok v
unfolding find
find-some what name m v h = ap (or_not_found what name) h

auth_of_lem :
    (lower : Str → Str) (creds : Dict SnmpCredential) (name credential : Str)
    (auth : Option SnmpAuth)
    → Authenticated lower creds credential auth
    → (a : SnmpAuth) × (auth_of creds name credential auth ≡ ok a) × IsValid lower a
unfolding auth_of
auth_of_lem lower creds name _ auth (by_credential c found valid) =
    (c.auth, rw (find-some Resource.snmp_credentials _ creds c found) refl, valid)
auth_of_lem lower creds name _ _ (by_entry a valid) = (a, refl, valid)

-- On a manager that is loaded, reloaded and given loggers in any order, the authentication of
-- every device that it holds is resolved, to an entry that passes the validation.
pub resolve_snmp_auth_lem :
    {lower : Str → Str} {app : AppConfig} {last : System} {m : Manager}
    → Reachable lower app last m
    → (name : Str) → has name m.resources.snmp_devices ≡ true
    → (a : SnmpAuth) × (resolve_snmp_auth m name ≡ ok a) × IsValid lower a
unfolding IsAuthenticated resolve_snmp_auth
resolve_snmp_auth_lem {lower} {app} {last} {m} reachable name held =
    elim (Option-cases (lookup name m.resources.snmp_devices)) [
      | inl e ↦ absurd (cc (rw e at held))
      | inr (d, e) ↦
          let v = Reachable-IsConsistent reachable in
          let can =
            load_snmp-IsAuthenticated last.lower last.snmp_at _ (snmp_of m.resources)
              (load_resources-parts last app m.resources v.warnings v.complete).1 name d e in
          let (a, resolved, valid) =
            auth_of_lem _ m.resources.snmp_creds name d.credential d.auth can in
          (
            a,
            rw (find-some Resource.snmp_devices name _ d e) resolved,
            subst (λ f. IsValid f a) v.same_lower valid,
          )
    ]

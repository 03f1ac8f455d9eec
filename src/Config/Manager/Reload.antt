-- ===== src/Config/Manager/Reload.antt =====
-- The managers that Load, ReloadConfig and SetLogger produce.
use ops_mcp.Config.Errors.{ConfigError}
use ops_mcp.Config.Commands.{Warning}
use ops_mcp.Config.Manager.{
  System, Logger, Resources, Manager, apply_defaults, load_resources, start, unless_failed, deliver,
  install, reload_resources, reload_config, set_logger, load,
}
use ops_mcp.Model.Config.{AppConfig}
use mathlib.Core.Path.{subst}
use ops_mcp.Prelude.{
  ◌≡◌, refl, sym, ap, ◌∙◌, ◌⊎◌, inl, inr, Option, none, some, List, [], nat_eq, Str, str_eq, ok,
  err, ok_injective, Result-cases,
}

-- A manager that is loaded, reloaded and given loggers, in any order. Each load finds its own
-- files; only the case tables of the Go library stay. `app` is the application file of the first
-- load with its defaults, and `last` what the last load found that returned no error.
pub data Reachable (lower : Str → Str) (app : AppConfig) : System → Manager → Type 0 where
  loaded :
      (sys : System) (token : Str) (file : AppConfig) {m : Manager}
      → apply_defaults token file ≡ app
      → sys.lower ≡ lower
      → load sys token file ≡ ok m
      → Reachable lower app sys m
  reloaded :
      {last : System} {m m' : Manager}
      → Reachable lower app last m
      → (sys : System) → sys.lower ≡ lower
      → reload_config sys m ≡ (m', none)
      → Reachable lower app sys m'
  kept :
      {last : System} {m m' : Manager} {failed : ConfigError}
      → Reachable lower app last m
      → (sys : System) → sys.lower ≡ lower
      → reload_config sys m ≡ (m', some failed)
      → Reachable lower app last m'
  logged :
      {last : System} {m m' : Manager}
      → Reachable lower app last m
      → (given : Option Logger) → set_logger given m ≡ m'
      → Reachable lower app last m'

-- The resources are those that the complete load of `last` gives, by the application file, and no
-- warning waits once there is a logger.
pub record IsConsistent (lower : Str → Str) (app : AppConfig) (last : System) (m : Manager)
    : Type 0 where
  pub same_lower : last.lower ≡ lower
  pub same_app : m.app ≡ app
  pub warnings : List Warning
  pub complete : load_resources last app ≡ ok (m.resources, warnings)
  pub delivered : (m.log ≡ none) ⊎ (m.command_warnings ≡ [])

delivered_all :
    (log : Option Logger) (ws : List Warning)
    → ((deliver log ws).0 ≡ none) ⊎ ((deliver log ws).1 ≡ [])
delivered_all none ws = inl refl
delivered_all (some log) ws = inr refl

install-IsConsistent :
    {lower : Str → Str} {app : AppConfig} (m : Manager) (sys : System) (r : Resources)
    (ws : List Warning)
    → sys.lower ≡ lower
    → m.app ≡ app
    → load_resources sys m.app ≡ ok (r, ws)
    → IsConsistent lower app sys (install m (r, ws))
install-IsConsistent m sys r ws l a h = record {
  same_lower = l;
  same_app = a;
  warnings = ws;
  complete = ap (load_resources sys) (sym a) ∙ h;
  delivered = delivered_all m.log ws;
}

reload_ok :
    (sys : System) (m : Manager) (p : Resources × List Warning)
    → load_resources sys m.app ≡ ok p
    → reload_resources sys m ≡ (install m p, none)
unfolding reload_resources
reload_ok sys m p h = rw (h, reload_resources) refl

reload_err :
    (sys : System) (m : Manager) (e : ConfigError)
    → load_resources sys m.app ≡ err e
    → reload_resources sys m ≡ (m, some e)
unfolding reload_resources
reload_err sys m e h = rw (h, reload_resources) refl

-- What a reload without an error serves is what it loaded; with an error nothing changes.
reload-IsConsistent :
    {lower : Str → Str} {app : AppConfig} {last : System} (m m' : Manager) (sys : System)
    → sys.lower ≡ lower
    → IsConsistent lower app last m
    → reload_config sys m ≡ (m', none)
    → IsConsistent lower app sys m'
unfolding reload_config
reload-IsConsistent {lower} {app} m m' sys l v h = elim (Result-cases (load_resources sys m.app)) [
  | inl (e, f) ↦ absurd (cc (ap (λ p. p.1) (sym (reload_err sys m e f) ∙ h)))
  | inr ((r, ws), f) ↦
      subst (IsConsistent lower app sys) (ap (λ p. p.0) (sym (reload_ok sys m (r, ws) f) ∙ h))
        (install-IsConsistent m sys r ws l v.same_app f)
]

reload-kept :
    {e : ConfigError} (m m' : Manager) (sys : System) → reload_config sys m ≡ (m', some e) → m ≡ m'
unfolding reload_config
reload-kept m m' sys h = elim (Result-cases (load_resources sys m.app)) [
  | inl (e, f) ↦ ap (λ p. p.0) (sym (reload_err sys m e f) ∙ h)
  | inr (p, f) ↦ absurd (cc (ap (λ p. p.1) (sym (reload_ok sys m p f) ∙ h)))
]

load-IsConsistent :
    {lower : Str → Str} {app : AppConfig} (sys : System) (token : Str) (file : AppConfig)
    (m : Manager)
    → apply_defaults token file ≡ app
    → sys.lower ≡ lower
    → load sys token file ≡ ok m
    → IsConsistent lower app sys m
unfolding load
load-IsConsistent {lower} {app} sys token file m a l h =
    let first = start token file in
    elim (Result-cases (load_resources sys first.app)) [
      | inl (e, f) ↦ absurd (cc (ap unless_failed (reload_err sys first e f), h))
      | inr ((r, ws), f) ↦
          subst (IsConsistent lower app sys)
            (ok_injective (sym (ap unless_failed (reload_ok sys first (r, ws) f)) ∙ h))
            (install-IsConsistent first sys r ws l a f)
    ]

pub Reachable-IsConsistent :
    {lower : Str → Str} {app : AppConfig} {last : System} {m : Manager}
    → Reachable lower app last m
    → IsConsistent lower app last m
unfolding set_logger
Reachable-IsConsistent (loaded sys token file a l h) = load-IsConsistent sys token file _ a l h
Reachable-IsConsistent (reloaded {m = m} {m' = m'} before sys l h) =
    reload-IsConsistent m m' sys l (Reachable-IsConsistent before) h
Reachable-IsConsistent {lower} {app} {last} (kept {m = m} {m' = m'} before sys l h) =
    subst (IsConsistent lower app last) (reload-kept m m' sys h) (Reachable-IsConsistent before)
Reachable-IsConsistent {lower} {app} {last} (logged before given h) =
    let v = Reachable-IsConsistent before in
    subst (IsConsistent lower app last) h (record {
      same_lower = v.same_lower;
      same_app = v.same_app;
      warnings = v.warnings;
      complete = v.complete;
      delivered = inr refl;
    })

-- ===== src/Api/Reload/Served.antt =====
-- The names of plugins and API tools on every service that is started and reloaded.
use mathlib.Core.Path.{subst}
use ops_mcp.Prelude.{
  str_eq, ◌≡◌, [], refl, Bool, some, Result, Str, ℕ, false, ok, err, sym, Option, true, none,
}
use ops_mcp.Config.Lookup.{list_apis}
use ops_mcp.Config.Errors.{ConfigError}
use ops_mcp.Model.Config.{AppConfig}
use ops_mcp.Config.Manager.{reload_config, Logger, Manager}
use ops_mcp.Api.Reload.{
  Found, Service, reload_tools, reload_plugins, set_tools, set_plugins, after_plugins, after_tools,
  go_on, assembled, unless_config_failed, reload_tools_part, start_parts, unless_ended, started,
  run, ReloadRequest, reload_sources, reload_disk, reload, empty_tools, names_of, ServiceError,
  reply_of,
}
use ops_mcp.Mcp.Server.Dispatch.{IsApart}
use ops_mcp.Openapi.Registry.Load.{LoadError, Registry}
use ops_mcp.Plugins.Loader.{PluginError}
use ops_mcp.Plugins.Manager.{PluginManager}
use ops_mcp.Api.Reload.Apart.{load_plugins-IsApart, load_tools-IsApart}

-- The shared plugins and registry of a service have names of their own.
pub IsServing : Service → Type 0
IsServing s = (reg : Registry) × (s.mcp.api_tools ≡ some reg) × IsApart s.mcp.plugins reg

abbrev Keeps : Service × Result ServiceError ℕ → Type 0
Keeps p = IsServing p.0

after_plugins_state :
    (s : Service) (p : PluginManager × Result PluginError ℕ)
    → (after_plugins s p).0 ≡ set_plugins s p.0
after_plugins_state s (pm, ok n) = refl
after_plugins_state s (pm, err e) = refl

after_tools_state :
    (s : Service) (p : Registry × Result LoadError ℕ) → (after_tools s p).0 ≡ set_tools s p.0
after_tools_state s (r, ok n) = refl
after_tools_state s (r, err e) = refl

go_on-Keeps :
    (p : Service × Result ServiceError ℕ) (next : Service → ℕ → Service × Result ServiceError ℕ)
    → Keeps p
    → ((n : ℕ) → Keeps (next p.0 n))
    → Keeps (go_on p next)
go_on-Keeps (s, err e) next k f = k
go_on-Keeps (s, ok n) next k f = f n

reload_plugins-Keeps :
    (found : Found) (s : Service) → IsServing s → Keeps (after_plugins s (reload_plugins found s))
unfolding reload_plugins names_of IsServing
reload_plugins-Keeps found s (reg, here_is, v) =
    rw (after_plugins_state s (reload_plugins found s)) (
      reg,
      here_is,
      rw (here_is, names_of) (load_plugins-IsApart s.mcp.plugins reg v found.walk_ok found.dirs),
    )

reload_tools-Keeps :
    (found : Found) (s : Service) (reg : Registry)
    → IsApart s.mcp.plugins reg
    → Keeps (after_tools s (reload_tools found s reg))
unfolding reload_tools IsServing
reload_tools-Keeps found s reg v = rw (after_tools_state s (reload_tools found s reg)) (
  (reload_tools found s reg).0,
  refl,
  load_tools-IsApart s.mcp.plugins reg v _ (list_apis s.config) refl,
)

assembled-IsApart : (m : Manager) → IsApart (assembled m).mcp.plugins empty_tools
assembled-IsApart m = record {
  found = [];
  tools = [];
  plugins_bound = refl;
  tools_bound = refl;
  plugins_distinct = tt;
  tools_distinct = tt;
  apart = λ n h. elim h [ ];
}

tools_part-Keeps :
    (found : Found) (s : Service) → IsServing s → Keeps (reload_tools_part found s s.mcp.api_tools)
unfolding IsServing
tools_part-Keeps found s (reg, here_is, v) =
    subst (λ o. Keeps (reload_tools_part found s o)) (sym here_is)
      (reload_tools-Keeps found s reg v)

reload_sources-Keeps :
    (found : Found) (asked : Bool) (s : Service)
    → IsServing s
    → Keeps (reload_sources found asked s)
unfolding reload_sources IsServing
reload_sources-Keeps found false s v = v
reload_sources-Keeps found true s (reg, here_is, v) =
    by_outcome (reload_config found.system s.config)
  where
    by_outcome :
        (out : Manager × Option ConfigError)
        → Keeps (
            unless_config_failed
              (record s { config = out.0 }, out.1)
              λ t. reload_tools_part found t t.mcp.api_tools)
    by_outcome (m, some e) = (reg, here_is, v)
    by_outcome (m, none) = rw here_is (reload_tools-Keeps found (record s { config = m }) reg v)

reload_disk-Keeps :
    (found : Found) (asked : Bool) (s : Service) → IsServing s → Keeps (reload_disk found asked s)
unfolding reload_disk
reload_disk-Keeps found false s v = v
reload_disk-Keeps found true s v = reload_plugins-Keeps found s v

start_parts-Keeps : (found : Found) (m : Manager) → Keeps (start_parts found m)
unfolding start_parts IsServing
start_parts-Keeps found m =
    let first = reload_plugins-Keeps found (assembled m) (empty_tools, refl, assembled-IsApart m) in
    go_on-Keeps (after_plugins (assembled m) (reload_plugins found (assembled m)))
      (λ s n. reload_tools_part found s s.mcp.api_tools) first λ n. tools_part-Keeps found _ first

-- A service that is started, and then reloaded any number of times; each start and reload finds
-- its own files.
pub data Reachable : Service → Type 0 where
  started_up :
      (found : Found) (log : Option Logger) (token : Str) (file : AppConfig) {s : Service}
      → run found log token file ≡ some s
      → Reachable s
  reloaded :
      {s s' : Service}
      → Reachable s
      → (found : Found) (req : ReloadRequest) → (reload found req s).0 ≡ s'
      → Reachable s'

unless_ended-Keeps :
    (p : Service × Result ServiceError ℕ) (s : Service)
    → unless_ended p ≡ some s
    → Keeps p
    → IsServing s
unless_ended-Keeps (t, ok n) s h k = subst IsServing (cc h) k
unless_ended-Keeps (t, err e) s h k = absurd (cc h)

started-IsServing :
    (found : Found) (log : Option Logger) (m : Result ConfigError Manager) (s : Service)
    → started found log m ≡ some s
    → IsServing s
started-IsServing found log (err e) s h = absurd (cc h)
started-IsServing found none (ok m) s h = absurd (cc h)
started-IsServing found (some l) (ok m) s h =
    unless_ended-Keeps (start_parts found _) s h (start_parts-Keeps found _)

reply_of-Keeps : (p : Service × Result ServiceError ℕ) → Keeps p → IsServing (reply_of p).0
reply_of-Keeps (s, ok n) k = k
reply_of-Keeps (s, err e) k = k

reload-IsServing :
    (found : Found) (req : ReloadRequest) (s : Service)
    → IsServing s
    → IsServing (reload found req s).0
unfolding reload
reload-IsServing found req s v =
    let first = reload_sources-Keeps found req.config s v in
    reply_of-Keeps _ (
      go_on-Keeps (reload_sources found req.config s) _ first
        λ n. reload_disk-Keeps found _ _ first)

-- After a start, and after any number of reloads of the configuration, the API tools and the
-- plugins, failed ones included, whatever each finds, the server has a registry, and its plugins
-- and its API tools are bound under their names, all of them different.
pub Reachable-IsServing : {s : Service} → Reachable s → IsServing s
unfolding run
Reachable-IsServing (started_up found log token file {s} h) = started-IsServing found log _ s h
Reachable-IsServing (reloaded {s} before found req h) =
    subst IsServing h (reload-IsServing found req s (Reachable-IsServing before))

-- ===== src/Api/Reload.antt =====
-- How main.go starts the parts, and the reload handler of api/server.go.
pub mod Apart
pub mod Served
use ops_mcp.Config.Errors.{ConfigError}
use ops_mcp.Config.Lookup.{list_apis}
use ops_mcp.Config.Manager.{System, Logger, Manager, load, set_logger, reload_config}
use ops_mcp.Mcp.Server.{Server, tools_count}
use ops_mcp.Model.Config.{AppConfig}
use ops_mcp.Openapi.Registry.Load.{Environment, LoadError, Registry, load as load_tools, tool_names}
use ops_mcp.Plugins.Loader.{PluginError, PluginDir}
use ops_mcp.Plugins.Manager.{PluginManager, load as load_plugins, names, count}
use ops_mcp.Prelude.{
  true, false, Option, none, some, Bool, List, Result, [], Str, ℕ, ◌||◌, ok, err, not, ◌&&◌,
}

-- What is found outside during one start or reload: the files of the configuration, the documents
-- of the APIs, and the plugins' directory.
pub record Found : Type 0 where
  pub system : System
  pub documents : Environment
  pub walk_ok : Bool
  pub dirs : List PluginDir

-- The configuration, and the MCP server with the plugins and the registry that all parts share.
pub record Service : Type 0 where
  pub config : Manager
  pub mcp : Server

pub data ServiceError : Type 0 where
  config_failed : ConfigError → ServiceError
  plugins_failed : PluginError → ServiceError
  tools_failed : LoadError → ServiceError

-- The names that one side reserves are those of the other at the time of the load.
unfoldable pub names_of : Option Registry → List Str
names_of none = []
names_of (some r) = tool_names r

abbrev pub with_reserved : List Str → Environment → Environment
with_reserved reserved env = record env { reserved = reserved }

unfoldable pub reload_tools : Found → Service → Registry → Registry × Result LoadError ℕ
reload_tools found s r =
    load_tools (with_reserved (names s.mcp.plugins) found.documents) (list_apis s.config) r

unfoldable pub reload_plugins : Found → Service → PluginManager × Result PluginError ℕ
unfolding names_of
reload_plugins found s =
    load_plugins (names_of s.mcp.api_tools) found.walk_ok found.dirs s.mcp.plugins

abbrev pub set_tools : Service → Registry → Service
set_tools s r = record s { mcp = record s.mcp { api_tools = some r } }

abbrev pub set_plugins : Service → PluginManager → Service
set_plugins s pm = record s { mcp = record s.mcp { plugins = pm } }

-- `if _, err := pm.Load(); err != nil`, and likewise for the registry: the service after the call,
-- and the error.
abbrev pub after_plugins :
    Service → PluginManager × Result PluginError ℕ → Service × Result ServiceError ℕ
after_plugins s (pm, ok n) = (set_plugins s pm, ok n)
after_plugins s (pm, err e) = (set_plugins s pm, err (plugins_failed e))

abbrev pub after_tools : Service → Registry × Result LoadError ℕ → Service × Result ServiceError ℕ
after_tools s (r, ok n) = (set_tools s r, ok n)
after_tools s (r, err e) = (set_tools s r, err (tools_failed e))

-- The next step, unless the last one failed.
abbrev pub go_on :
    Service × Result ServiceError ℕ
    → (Service → ℕ → Service × Result ServiceError ℕ)
    → Service × Result ServiceError ℕ
go_on (s, err e) next = (s, err e)
go_on (s, ok n) next = next s n

abbrev pub empty_tools : Registry
empty_tools = record { tools = []; by_api = [] }

-- The service before its first loads.
abbrev pub assembled : Manager → Service
assembled m = record {
  config = m;
  mcp = record {
    plugins = record { plugins_dir = m.app.plugins.dir; plugins = [] };
    api_tools = some empty_tools;
  };
}

-- `if reg := s.mcp.APITools(); reg != nil`
abbrev pub reload_tools_part : Found → Service → Option Registry → Service × Result ServiceError ℕ
reload_tools_part found s none = (s, ok 0)
reload_tools_part found s (some r) = after_tools s (reload_tools found s r)

-- run of main.go, once the configuration is loaded: plugins first, then the API tools.
unfoldable pub start_parts : Found → Manager → Service × Result ServiceError ℕ
unfolding reload_plugins reload_tools
start_parts found m =
    go_on (after_plugins (assembled m) (reload_plugins found (assembled m)))
      λ s n. reload_tools_part found s s.mcp.api_tools

-- `none` where run returns an error and the process ends. newLogger, which calls zap, gives the
-- logger, or `none` for an error.
abbrev pub unless_ended : Service × Result ServiceError ℕ → Option Service
unless_ended (s, ok n) = some s
unless_ended (s, err e) = none

abbrev pub started : Found → Option Logger → Result ConfigError Manager → Option Service
started found log (err e) = none
started found none (ok m) = none
started found (some log) (ok m) = unless_ended (start_parts found (set_logger (some log) m))

unfoldable pub run : Found → Option Logger → Str → AppConfig → Option Service
unfolding start_parts
run found log token file = started found log (load found.system token file)

-- What the request asks for; a body that does not decode asks for nothing.
pub record ReloadRequest : Type 0 where
  pub plugins : Bool
  pub config : Bool

pub data Reply : Type 0 where
  failed : ServiceError → Reply
  reloaded : ℕ → ℕ → Reply

abbrev pub reload_config_part : Found → Service → Service × Option ConfigError
reload_config_part found s =
    let (m, e) = reload_config found.system s.config in (record s { config = m }, e)

abbrev pub unless_config_failed :
    Service × Option ConfigError
    → (Service → Service × Result ServiceError ℕ)
    → Service × Result ServiceError ℕ
unless_config_failed (s, some e) next = (s, err (config_failed e))
unless_config_failed (s, none) next = next s

-- `if req.Config`
unfoldable pub reload_sources : Found → Bool → Service → Service × Result ServiceError ℕ
unfolding reload_tools
reload_sources found false s = (s, ok 0)
reload_sources found true s =
    unless_config_failed (reload_config_part found s) λ s. reload_tools_part found s s.mcp.api_tools

-- `if req.Plugins`, with the number of plugins.
unfoldable pub reload_disk : Found → Bool → Service → Service × Result ServiceError ℕ
unfolding reload_plugins
reload_disk found false s = (s, ok (count s.mcp.plugins))
reload_disk found true s = after_plugins s (reload_plugins found s)

abbrev pub reply_of : Service × Result ServiceError ℕ → Service × Reply
reply_of (s, err e) = (s, failed e)
reply_of (s, ok n) = (s, reloaded n (tools_count s.mcp))

unfoldable pub reload : Found → ReloadRequest → Service → Service × Reply
unfolding reload_sources reload_disk
reload found req s =
    let plugins = req.plugins || (not req.plugins && not req.config) in
    reply_of (go_on (reload_sources found req.config s) λ s n. reload_disk found plugins s)

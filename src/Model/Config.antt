-- ===== src/Model/Config.antt =====
-- model/config.go, the root of ops-mcp.yaml.
use ops_mcp.Prelude.{Str, ℤ}

pub record AuthConfig : Type 0 where
  pub token : Str

pub record ServerConfig : Type 0 where
  pub host : Str
  pub port : ℤ
  pub auth : AuthConfig

pub record PluginsConfig : Type 0 where
  pub dir : Str

pub record PathsConfig : Type 0 where
  pub hosts : Str
  pub databases : Str
  pub redis : Str
  pub kafka : Str
  pub apis : Str
  pub commands : Str
  pub snmp : Str

pub record DefaultsConfig : Type 0 where
  pub plugin_timeout : Str

pub record LogConfig : Type 0 where
  pub level : Str
  pub encoding : Str

pub record AppConfig : Type 0 where
  pub server : ServerConfig
  pub plugins : PluginsConfig
  pub config : PathsConfig
  pub defaults : DefaultsConfig
  pub log : LogConfig

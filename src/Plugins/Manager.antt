-- ===== src/Plugins/Manager.antt =====
-- plugin/manager.go. `reserved` is what the provider of reserved names returns.
pub mod Admitted
use ops_mcp.Model.Plugin.{PluginMeta}
use ops_mcp.Plugins.Loader.{
  PluginError, duplicate_plugin, plugin_conflict, no_plugins_loaded, PluginDir, Loaded, load_all,
}
use ops_mcp.Prelude.{
  ◌>>◌, ℕ, Bool, not, ◌&&◌, Option, List, [], nat_eq, ◌==◌, length, is_nil, any, Str, str_eq, Dict,
  lookup, has, keys, values, insert, Result, ok, err, ◌>>=◌, refuse, for_each,
}

pub record PluginManager : Type 0 where
  pub plugins_dir : Str
  pub plugins : Dict PluginMeta

abbrev pub is_reserved : List Str → Str → Bool
is_reserved reserved name = any (λ n. n == name) reserved

unfoldable pub add_plugin :
    List Str → PluginMeta → Dict PluginMeta → Result PluginError (Dict PluginMeta)
add_plugin reserved p next = do
  refuse (has p.name next) (duplicate_plugin p.name)
  refuse (is_reserved reserved p.name) (plugin_conflict p.name)
  ok (insert p.name p next)

unfoldable pub next_plugins : List Str → Loaded → Result PluginError (Dict PluginMeta)
next_plugins reserved (found, errs) = for_each (add_plugin reserved) found [] >>= λ next. do
  refuse (is_nil next && not (is_nil errs)) no_plugins_loaded
  ok next

-- The manager after the call, and what the call returned.
abbrev pub replace :
    PluginManager → Result PluginError (Dict PluginMeta) → PluginManager × Result PluginError ℕ
replace m (err e) = (m, err e)
replace m (ok next) = (record m { plugins = next }, ok (length next))

unfoldable pub load :
    List Str → Bool → List PluginDir → PluginManager → PluginManager × Result PluginError ℕ
load reserved walk_ok dirs m = replace m (next_plugins reserved (load_all walk_ok dirs))

unfoldable pub get : PluginManager → Str → Option PluginMeta
get m name = lookup name m.plugins

unfoldable pub names : PluginManager → List Str
names m = keys m.plugins

unfoldable pub list : PluginManager → List PluginMeta
list m = values m.plugins

unfoldable pub count : PluginManager → ℕ
count m = length m.plugins

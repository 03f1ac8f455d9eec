-- ===== src/Plugins/Tests.antt =====
-- Two plugin directories through the loader and the manager.
use ops_mcp.Model.Plugin.{PluginMeta}
use ops_mcp.Plugins.Loader.{
  PluginError, PluginDir, load_one, load_all, validate_meta, check_inputs, is_blank,
}
use ops_mcp.Plugins.Loader.Found.{Loads, load_all_iff}
use ops_mcp.Plugins.Manager.{PluginManager, load, next_plugins, add_plugin}
use ops_mcp.Plugins.Manager.Admitted.{Admissible, by_name, load_admits}
use ops_mcp.Prelude.{
  ◌≡◌, refl, ◌⊎◌, true, none, some, List, [], ◌∷◌, nat_eq, length, Some, here, there, Has, str,
  str_beq, str_eq, trim_space, lookup, insert, ok, err, for_each,
}

abbrev uptime : PluginMeta
uptime = record {
  name = str "uptime";
  version = str "1";
  description = str "d";
  plugin_type = str "ssh";
  target_type = str "host";
  input = [];
  runtime = str "javascript";
  timeout = [];
  path = str "plugins/uptime";
  script = str "main";
}

abbrev dirs : List PluginDir
dirs =
    record { dir = str "plugins/bad"; readable = true; yml = none; main_js = some [] }
    ∷ record {
      dir = str "plugins/uptime";
      readable = true;
      yml = some uptime;
      main_js = some (str "main");
    }
    ∷ []

abbrev empty : PluginManager
empty = record { plugins_dir = str "plugins"; plugins = [] }

plugins : Unit {0}
unfolding load_one load_all validate_meta check_inputs is_blank load next_plugins add_plugin
    for_each lookup insert str_beq trim_space
plugins = tt

load-uptime :
    load [] true dirs empty ≡ (record empty { plugins = (str "uptime", uptime) ∷ [] }, ok 1)
unfolding plugins
load-uptime = refl

load_plugins_example :
    (Admissible (str "uptime" ∷ []) (load_all true dirs)
      × (load (str "uptime" ∷ []) true dirs empty ≡ (
        record empty { plugins = by_name (load_all true dirs).0 },
        ok (length (load_all true dirs).0),
      )))
    ⊎ ((¬ Admissible (str "uptime" ∷ []) (load_all true dirs))
        × ((e : PluginError) × (load (str "uptime" ∷ []) true dirs empty ≡ (empty, err e))))
load_plugins_example = load_admits (str "uptime" ∷ []) true dirs empty

uptime-Loads : Some (Loads uptime) dirs
unfolding plugins
uptime-Loads = there (here refl)

load_all_example : Has uptime (load_all true dirs).0
load_all_example = (load_all_iff uptime true dirs).1 uptime-Loads

-- ===== src/Plugins/Loader.antt =====
-- plugin/loader.go. Walking the directory gives the places of a plugin.yml, in order.
pub mod Found
use ops_mcp.Model.Plugin.{PluginInputField, PluginMeta}
use ops_mcp.Prelude.{
  Bool, true, false, not, Option, none, some, List, [], ◌∷◌, nat_eq, ◌==◌, Str, str, str_eq,
  is_empty, trim_space, Dict, Result, ok, err, ◌>>=◌, refuse, ◌>>◌,
}

pub data PluginError : Type 0 where
  unreadable_yml missing_main_js bad_yml runtime_not_javascript : PluginError
  is_required : Str → PluginError
  input_type_required : Str → PluginError
  duplicate_plugin plugin_conflict : Str → PluginError
  no_plugins_loaded walk_failed : PluginError

-- A directory with a plugin.yml: what reading and decoding that file gives, and main.js.
pub record PluginDir : Type 0 where
  pub dir : Str
  pub readable : Bool
  pub yml : Option PluginMeta
  pub main_js : Option Str

unfoldable pub check_inputs : Dict PluginInputField → Result PluginError (Unit {0})
check_inputs [] = ok tt
check_inputs (f ∷ fs) =
    refuse (is_empty (f.1).input_type) (input_type_required f.0) >> check_inputs fs

unfoldable pub is_blank : Str → Bool
is_blank s = is_empty (trim_space s)

unfoldable pub validate_meta : PluginMeta → Result PluginError (Unit {0})
validate_meta m = do
  refuse (is_blank m.name) (is_required (str "name"))
  refuse (is_blank m.version) (is_required (str "version"))
  refuse (is_blank m.description) (is_required (str "description"))
  refuse (is_blank m.plugin_type) (is_required (str "type"))
  refuse (is_blank m.target_type) (is_required (str "target.type"))
  refuse (not (m.runtime == str "javascript")) runtime_not_javascript
  check_inputs m.input

abbrev pub or_error {ℓ κ} : {A : Type ℓ} {E : Type κ} → E → Option A → Result E A
or_error e none = err e
or_error e (some a) = ok a

unfoldable pub load_one : PluginDir → Result PluginError PluginMeta
load_one d = do
  refuse (not d.readable) unreadable_yml
  js ← or_error missing_main_js d.main_js
  meta ← or_error bad_yml d.yml
  validate_meta meta
  ok (record meta { path = d.dir; script = js })

-- The plugins that load, and the errors of the others with their directories.
abbrev pub Loaded : Type 0
Loaded = List PluginMeta × List (Str × PluginError)

abbrev pub visit_plugin : Str → Result PluginError PluginMeta → Loaded → Loaded
visit_plugin dir (ok p) (ps, errs) = (p ∷ ps, errs)
visit_plugin dir (err e) (ps, errs) = (ps, (dir, e) ∷ errs)

-- `walk_ok` tells whether the walk of the tree reached its end; if not, `ds` is what it visited.
unfoldable pub load_all : Bool → List PluginDir → Loaded
load_all true [] = ([], [])
load_all false [] = ([], ([], walk_failed) ∷ [])
load_all walk_ok (d ∷ ds) = visit_plugin d.dir (load_one d) (load_all walk_ok ds)

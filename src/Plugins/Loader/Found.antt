-- ===== src/Plugins/Loader/Found.antt =====
-- What LoadAll finds.
use ops_mcp.Model.Plugin.{PluginMeta}
use ops_mcp.Plugins.Loader.{PluginError, PluginDir, Loaded, load_one, visit_plugin, load_all}
use ops_mcp.Prelude.{
  ◌≡◌, ap, ◌↔◌, ◌⊎◌, inl, inr, Bool, true, false, List, [], ◌∷◌, nat_eq, Some, here, there, Has,
  Str, str_eq, Result, ok, err, ok_injective,
}

-- The directory loads to this plugin.
abbrev pub Loads : PluginMeta → PluginDir → Type 0
Loads p d = load_one d ≡ ok p

visit_plugin_iff :
    (p : PluginMeta) (dir : Str) (r : Result PluginError PluginMeta) (rest : Loaded)
    → Has p (visit_plugin dir r rest).0 ↔ ((r ≡ ok p) ⊎ Has p rest.0)
visit_plugin_iff p dir (err e) (ps, errs) = (λ h. inr h, elim [ inl h ↦ absurd (cc h) | inr h ↦ h ])
visit_plugin_iff p dir (ok q) (ps, errs) = (
  elim [ here e ↦ inl (ap (λ x. ok x) e) | there h ↦ inr h ],
  elim [ inl h ↦ here (ok_injective h) | inr h ↦ there h ],
)

-- A scan finds exactly the plugins to which the visited directories load: a directory that does
-- not load never hides another.
pub load_all_iff :
    (p : PluginMeta) (walk_ok : Bool) (dirs : List PluginDir)
    → Has p (load_all walk_ok dirs).0 ↔ Some (Loads p) dirs
unfolding load_all
load_all_iff p true [] = (elim [ ], elim [ ])
load_all_iff p false [] = (elim [ ], elim [ ])
load_all_iff p walk_ok (d ∷ ds) =
    let step = visit_plugin_iff p d.dir (load_one d) (load_all walk_ok ds) in
    let rest = load_all_iff p walk_ok ds in
    (
      λ h. elim (step.0 h) [ inl e ↦ here e | inr found ↦ there (rest.0 found) ],
      elim [ here e ↦ step.1 (inl e) | there s ↦ step.1 (inr (rest.1 s)) ],
    )

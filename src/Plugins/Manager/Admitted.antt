-- ===== src/Plugins/Manager/Admitted.antt =====
-- Which plugins a Load of the manager admits.
use ops_mcp.Model.Plugin.{PluginMeta}
use ops_mcp.Plugins.Loader.{
  PluginError, no_plugins_loaded, plugin_conflict, duplicate_plugin, PluginDir, Loaded, load_all,
}
use ops_mcp.Plugins.Manager.{PluginManager, is_reserved, add_plugin, next_plugins, replace, load}
use ops_mcp.Config.Named.{refuse_iff, for_each_iff}
use ops_mcp.Prelude.{
  suc, ◌≡◌, refl, sym, ap, ◌∙◌, ◌↔◌, ◌⊎◌, inl, inr, Bool, false, not, ◌&&◌, List, [], ◌∷◌, map,
  nat_eq, length, is_nil, All, Distinct, Str, str_eq, Dict, has, insert, ok, err, ok_injective,
  Result-cases, >>=-eq-ok, for_each,
}

-- The names of the found plugins are free and distinct, and if none was found none failed.
unfoldable pub Admissible : List Str → Loaded → Type 0
Admissible reserved (found, errs) =
    All (λ p. is_reserved reserved p.name ≡ false) found
    × Distinct (map (λ p. p.name) found)
    × ((is_nil found && not (is_nil errs)) ≡ false)

abbrev pub by_name : List PluginMeta → Dict PluginMeta
by_name found = map (λ p. (p.name, p)) found

add_plugin_iff :
    (reserved : List Str) (p : PluginMeta) (m m' : Dict PluginMeta)
    → (add_plugin reserved p m ≡ ok m')
      ↔ ((is_reserved reserved p.name ≡ false) × (has p.name m ≡ false) × (m' ≡ insert p.name p m))
unfolding add_plugin
add_plugin_iff reserved p m m' =
    let outer = refuse_iff (has p.name m) (duplicate_plugin p.name) _ m' in
    let inner =
      refuse_iff (is_reserved reserved p.name) (plugin_conflict p.name) (ok (insert p.name p m))
        m' in
    (
      λ h.
          let (new, h1) = outer.0 h in
          let (free, h2) = inner.0 h1 in (free, new, sym (ok_injective h2)),
      λ h. outer.1 (h.1, inner.1 (h.0, ap (λ d. ok d) (sym h.2))),
    )

is_nil-by_name : (found : List PluginMeta) → is_nil (by_name found) ≡ is_nil found
is_nil-by_name [] = refl
is_nil-by_name (p ∷ ps) = refl

length-by_name : (found : List PluginMeta) → length (by_name found) ≡ length found
length-by_name [] = refl
length-by_name (p ∷ ps) = ap (λ n. suc n) (length-by_name ps)

next_plugins_iff :
    (reserved : List Str) (scan : Loaded) (next : Dict PluginMeta)
    → (next_plugins reserved scan ≡ ok next) ↔ (Admissible reserved scan × (next ≡ by_name scan.0))
unfolding next_plugins Admissible
next_plugins_iff reserved (found, errs) next =
    let each =
      for_each_iff (λ p. p.name) (λ p. is_reserved reserved p.name ≡ false) (λ p. p)
        (add_plugin reserved) (add_plugin_iff reserved) found in
    let last = λ (d : Dict PluginMeta).
      refuse_iff (is_nil d && not (is_nil errs)) no_plugins_loaded (ok d) next in
    (
      λ h.
          let (d, h1, h2) = >>=-eq-ok (for_each (add_plugin reserved) found []) _ h in
          let (free, apart, e) = (each d).0 h1 in
          let (some_ok, e2) = (last d).0 h2 in
          ((free, apart, rw (e, is_nil-by_name found) at some_ok), sym (ok_injective e2) ∙ e),
      λ h.
          let ((free, apart, some_ok), e) = h in
          rw ((each (by_name found)).1 (free, apart, refl))
            ((last (by_name found)).1 (rw (is_nil-by_name found) some_ok, ap (λ d. ok d) (sym e))),
    )

-- A load of the plugins succeeds exactly when the names of the plugins found are distinct and free
-- and, if there are none, no plugin failed either; the manager then holds them in the order found,
-- by their names, and the call returns their number. Every other load returns an error and leaves
-- the manager as it was.
pub load_admits :
    (reserved : List Str) (walk_ok : Bool) (dirs : List PluginDir) (m : PluginManager)
    → (Admissible reserved (load_all walk_ok dirs)
        × (load reserved walk_ok dirs m ≡ (
          record m { plugins = by_name (load_all walk_ok dirs).0 },
          ok (length (load_all walk_ok dirs).0),
        )))
      ⊎ ((¬ Admissible reserved (load_all walk_ok dirs))
          × ((e : PluginError) × (load reserved walk_ok dirs m ≡ (m, err e))))
unfolding load
load_admits reserved walk_ok dirs m =
    let scan = load_all walk_ok dirs in
    elim (Result-cases (next_plugins reserved scan)) [
      | inl (e, h) ↦ inr (
        λ good. absurd (cc (h, (next_plugins_iff reserved scan (by_name scan.0)).1 (good, refl))),
        (e, ap (replace m) h),
      )
      | inr (next, h) ↦
          let (good, e) = (next_plugins_iff reserved scan next).0 h in
          inl (
            good,
            ap (replace m) (h ∙ ap (λ d. ok d) e)
                ∙ ap (λ n. (record m { plugins = by_name scan.0 }, ok n)) (length-by_name scan.0),
          )
    ]

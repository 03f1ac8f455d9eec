-- ===== src/Api/Reload/Apart.antt =====
-- A load of the plugins, or of the API tools, keeps the names of the two apart.
use mathlib.Core.Path.{subst}
use ops_mcp.Prelude.{
  str_eq, ◌≡◌, map, ap, keys, ◌∙◌, All, inl, Has, inr, ◌∷◌, here, Distinct, any_complete, there,
  ◌==◌, str_beq_iff, [], refl, List, Bool, Str, false, sym,
}
use ops_mcp.Model.Api.{ApiService}
use ops_mcp.Model.Plugin.{PluginMeta}
use ops_mcp.Openapi.Schema.Build.{ToolMeta}
use ops_mcp.Mcp.Server.Dispatch.{IsApart, plugin_name, tool_name}
use ops_mcp.Openapi.Registry.Load.{Environment, Registry, load as load_tools, tool_names}
use ops_mcp.Openapi.Registry.Tools.{joined}
use ops_mcp.Openapi.Registry.Tools.Loaded.{load_lem}
use ops_mcp.Plugins.Loader.{PluginDir, load_all}
use ops_mcp.Plugins.Manager.{PluginManager, load as load_plugins, names, is_reserved}
use ops_mcp.Plugins.Manager.Admitted.{Admissible, load_admits}
use ops_mcp.Prelude.Keyed.{keyed, keys-keyed}

-- What the guard of a load says of the names that pass it.
reserved_apart :
    (reserved : List Str) (found : List PluginMeta)
    → All (λ p. is_reserved reserved p.name ≡ false) found
    → (n : Str) → Has n (map plugin_name found)
    → ¬ Has n reserved
reserved_apart reserved [] free n h = elim h [ ]
reserved_apart reserved (p ∷ ps) (free, rest) n (here e) = λ r. cc (
  free,
  any_complete (λ x. x ≡ p.name) (λ x. x == p.name) (λ x. (str_beq_iff x p.name).1) {xs = reserved}
      (subst (λ m. Has m reserved) (sym e) r),
)
reserved_apart reserved (p ∷ ps) (free, rest) n (there h) = reserved_apart reserved ps rest n h

free_apart :
    (reserved : List Str) (tools : List ToolMeta)
    → All (λ (b : Str × ToolMeta). ¬ Has b.0 reserved) (keyed tool_name tools)
    → (n : Str) → Has n reserved
    → ¬ Has n (map tool_name tools)
free_apart reserved [] free n r h = elim h [ ]
free_apart reserved (t ∷ ts) (free, rest) n r (here e) = free (rw e r)
free_apart reserved (t ∷ ts) (free, rest) n r (there h) = free_apart reserved ts rest n r h

module _ (pm : PluginManager) (reg : Registry) (v : IsApart pm reg) where
  tool_names_lem : tool_names reg ≡ map tool_name v.tools
  unfolding tool_names
  tool_names_lem = ap keys v.tools_bound ∙ keys-keyed tool_name v.tools

  names_lem : names pm ≡ map plugin_name v.found
  unfolding names
  names_lem = ap keys v.plugins_bound ∙ keys-keyed plugin_name v.found

  pub load_plugins-IsApart :
      (walk_ok : Bool) (dirs : List PluginDir)
      → IsApart (load_plugins (tool_names reg) walk_ok dirs pm).0 reg
  unfolding Admissible
  load_plugins-IsApart walk_ok dirs = elim (load_admits (tool_names reg) walk_ok dirs pm) [
    | inr (bad, (e, h)) ↦ rw h v
    | inl ((free, distinct, _), h) ↦ rw h (record {
      found = (load_all walk_ok dirs).0;
      tools = v.tools;
      plugins_bound = refl;
      tools_bound = v.tools_bound;
      plugins_distinct = distinct;
      tools_distinct = v.tools_distinct;
      apart = λ n p.
          rw tool_names_lem at (reserved_apart (tool_names reg) (load_all walk_ok dirs).0 free n p);
    })
  ]

  pub load_tools-IsApart :
      (env : Environment) (apis : List ApiService)
      → env.reserved ≡ names pm
      → IsApart pm (load_tools env apis reg).0
  load_tools-IsApart env apis r = elim (load_lem env apis reg) [
    | inl (e, h) ↦ rw h v
    | inr (new, h, l) ↦
        let tools = joined env l.per_api in
        rw h (record {
          found = v.found;
          tools = tools;
          plugins_bound = v.plugins_bound;
          tools_bound = l.tools;
          plugins_distinct = v.plugins_distinct;
          tools_distinct =
              subst Distinct (ap keys l.tools ∙ keys-keyed tool_name tools) (l.clean).distinct;
          apart = λ n p.
              free_apart env.reserved tools (rw l.tools at (l.clean).free) n (rw (r ∙ names_lem) p);
        })
  ]

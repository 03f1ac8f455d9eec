-- ===== src/Mcp/Server/Dispatch.antt =====
-- Where a call of a tool goes, on a server whose plugins and API tools have names of their own.
use mathlib.Core.Path.{subst}
use mathlib.Core.List.{map-append}
use ops_mcp.Model.Plugin.{PluginMeta}
use ops_mcp.Mcp.Server.{
  Server, Listed, listed_plugin, listed_tool, listed, Surroundings, tools_call, CallParams, route,
  Value, route_api, tool_result_content, call, execute, fail_result, plugin_not_found, not_found,
  str, Dict,
}
use ops_mcp.Openapi.Registry.Call.{call_tool, call}
use ops_mcp.Openapi.Registry.Load.{Registry, get_tool, list_tools}
use ops_mcp.Openapi.Schema.Build.{ToolMeta}
use ops_mcp.Plugins.Manager.{PluginManager, get, list}
use ops_mcp.Prelude.Keyed.{keyed, values-keyed, lookup-keyed-some, lookup-keyed-Has}
use ops_mcp.Prelude.Sorting.{sort_by, Has-sort_by, Distinct-sort_by, Has-key_sort_by}
use ops_mcp.Prelude.{
  ◌≡◌, refl, sym, ap, ◌∙◌, inl, inr, none, some, List, [], ◌∷◌, ◌++◌, map, Has, Distinct,
  Distinct-append, Str, lookup, values, Has-append_cases, ◌⊎◌, Option-cases,
}

abbrev pub plugin_name : PluginMeta → Str
plugin_name p = p.name

abbrev pub tool_name : ToolMeta → Str
tool_name t = t.name

abbrev pub listed_name : Listed → Str
listed_name l = l.name

-- Plugins and API tools are bound under their names, all of them different.
pub record IsApart (pm : PluginManager) (reg : Registry) : Type 0 where
  pub found : List PluginMeta
  pub tools : List ToolMeta
  pub plugins_bound : pm.plugins ≡ keyed plugin_name found
  pub tools_bound : reg.tools ≡ keyed tool_name tools
  pub plugins_distinct : Distinct (map plugin_name found)
  pub tools_distinct : Distinct (map tool_name tools)
  pub apart : (n : Str) → Has n (map plugin_name found) → ¬ Has n (map tool_name tools)

abbrev pub serving : PluginManager → Registry → Server
serving pm reg = record { plugins = pm; api_tools = some reg }

map_names :
    {A : Type 0} (f : A → Listed) (key : A → Str)
    → ((a : A) → (f a).name ≡ key a)
    → (xs : List A) → map listed_name (map f xs) ≡ map key xs
map_names f key e [] = refl
map_names f key e (x ∷ xs) = λ i. e x i ∷ map_names f key e xs i

module _ (pm : PluginManager) (reg : Registry) (v : IsApart pm reg) where
  list_found : list pm ≡ v.found
  unfolding list
  list_found = ap values v.plugins_bound ∙ values-keyed plugin_name v.found

  list_sorted : list_tools reg ≡ sort_by tool_name v.tools
  unfolding list_tools
  list_sorted =
      ap (λ m. sort_by tool_name (values m)) v.tools_bound
      ∙ ap (sort_by tool_name) (values-keyed tool_name v.tools)

  names_listed :
      map listed_name (listed (serving pm reg))
      ≡ map plugin_name v.found ++ map tool_name (sort_by tool_name v.tools)
  unfolding listed
  names_listed = map-append listed_name _ _ ∙ (λ i.
      map_names listed_plugin plugin_name (λ p. refl) (list_found i) i
      ++ map_names listed_tool tool_name (λ t. refl) (list_sorted i) i)

  Distinct-listed : Distinct (map listed_name (listed (serving pm reg)))
  Distinct-listed = rw names_listed (
      Distinct-append (map plugin_name v.found) (map tool_name (sort_by tool_name v.tools))
        v.plugins_distinct (Distinct-sort_by tool_name v.tools v.tools_distinct)
        λ n p t. v.apart n p (Has-key_sort_by tool_name n v.tools t))

  get_found : (n : Str) (p : PluginMeta) → get pm n ≡ some p → Has p (list pm) × (p.name ≡ n)
  unfolding get
  get_found n p h =
      let (m, e) =
        lookup-keyed-some plugin_name n v.found p (sym (ap (lookup n) v.plugins_bound) ∙ h) in
      (rw list_found m, e)

  tool_found :
      (n : Str) (t : ToolMeta) → get_tool n reg ≡ some t → Has t (list_tools reg) × (t.name ≡ n)
  unfolding get_tool
  tool_found n t h =
      let (m, e) =
        lookup-keyed-some tool_name n v.tools t (sym (ap (lookup n) v.tools_bound) ∙ h) in
      (rw list_sorted (Has-sort_by tool_name t v.tools m), e)

  not_listed :
      (n : Str)
      → get pm n ≡ none
      → get_tool n reg ≡ none
      → ¬ Has n (map listed_name (listed (serving pm reg)))
  unfolding get get_tool
  not_listed n p t h = elim (Has-append_cases n _ _ (rw names_listed at h)) [
    | inl l ↦ lookup-keyed-Has plugin_name n v.found l (sym (ap (lookup n) v.plugins_bound) ∙ p)
    | inr r ↦
        lookup-keyed-Has tool_name n v.tools (Has-key_sort_by tool_name n v.tools r)
          (sym (ap (lookup n) v.tools_bound) ∙ t)
  ]

-- How a call ends: at a listed plugin of that name, at a listed API tool of that name, or, when
-- nothing of that name is listed, at missing tool.
abbrev pub EndsAt : Surroundings → PluginManager → Registry → CallParams → Value → Type 0
EndsAt around pm reg p answer =
    ((q : PluginMeta) × Has q (list pm)
      × (q.name ≡ p.name)
      × (answer
          ≡ tool_result_content around.codec
              (execute around.parse_duration around.run around.default_timeout q p.arguments)))
    ⊎ (((t : ToolMeta) × Has t (list_tools reg)
          × (t.name ≡ p.name)
          × (answer ≡ tool_result_content around.codec (call_tool around.outside t p.arguments)))
        ⊎ ((¬ Has p.name (map listed_name (listed (serving pm reg))))
            × (answer
                ≡ tool_result_content around.codec
                    (fail_result plugin_not_found (not_found (str "plugin") p.name)))))

module _ (around : Surroundings) (pm : PluginManager) (reg : Registry) (n : Str)
    (args : Dict Value) where
  route_plugin :
      (q : PluginMeta)
      → get pm n ≡ some q
      → route around (serving pm reg) n args
        ≡ execute around.parse_duration around.run around.default_timeout q args
  unfolding route
  route_plugin q h = rw (h, route) refl

  route_tool :
      (t : ToolMeta)
      → get pm n ≡ none
      → get_tool n reg ≡ some t
      → route around (serving pm reg) n args ≡ call_tool around.outside t args
  unfolding route route_api call
  route_tool t missing h = rw (missing, route) (rw (h, route_api) (rw (h, call) refl))

  route_nowhere :
      get pm n ≡ none
      → get_tool n reg ≡ none
      → route around (serving pm reg) n args
        ≡ fail_result plugin_not_found (not_found (str "plugin") n)
  unfolding route route_api
  route_nowhere missing neither = rw (missing, route) (rw (neither, route_api) refl)

  route_ends :
      IsApart pm reg
      → EndsAt around pm reg
          (record { name = n; arguments = args })
          (tool_result_content around.codec (route around (serving pm reg) n args))
  route_ends v =
      let told = tool_result_content around.codec in
      elim (Option-cases (get pm n)) [
        | inr (q, h) ↦
            let (m, e) = get_found pm reg v n q h in inl (q, m, e, ap told (route_plugin q h))
        | inl missing ↦ elim (Option-cases (get_tool n reg)) [
          | inr (t, h) ↦
              let (m, e) = tool_found pm reg v n t h in
              inr (inl (t, m, e, ap told (route_tool t missing h)))
          | inl neither ↦
              inr (
                inr
                  (not_listed pm reg v n missing neither, ap told (route_nowhere missing neither)))
        ]
      ]

tools_call_decoded :
    (around : Surroundings) (s : Server) (params : Str) (p : CallParams)
    → (around.codec).call_params params ≡ some p
    → tools_call around s params
      ≡ tool_result_content around.codec (route around s p.name p.arguments)
unfolding tools_call
tools_call_decoded around s params p h = rw (h, tools_call) refl

-- If plugins and API tools have names of their own, tools/list gives each name once, and a call
-- goes to the listed plugin or to the listed API tool of its name, with its arguments, and fails
-- with the code of a missing plugin when that name is not listed.
pub tools_call_lem :
    (around : Surroundings) (pm : PluginManager) (reg : Registry)
    → IsApart pm reg
    → (params : Str) (p : CallParams) → (around.codec).call_params params ≡ some p
    → Distinct (map listed_name (listed (serving pm reg)))
      × EndsAt around pm reg p (tools_call around (serving pm reg) params)
tools_call_lem around pm reg v params p decoded = (
  Distinct-listed pm reg v,
  subst (EndsAt around pm reg p) (sym (tools_call_decoded around (serving pm reg) params p decoded))
      (route_ends around pm reg p.name p.arguments v),
)

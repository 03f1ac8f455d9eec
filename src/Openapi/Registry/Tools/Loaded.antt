-- ===== src/Openapi/Registry/Tools/Loaded.antt =====
-- What a load of the registry leaves in it, whether it succeeds or fails.
use mathlib.Core.List.{append_assoc, append-nil, map-append}
use mathlib.Core.Path.{subst}
use ops_mcp.Model.Api.{ApiService}
use ops_mcp.Openapi.Matcher.{new_discovery_matcher}
use ops_mcp.Openapi.Schema.Build.{ToolMeta}
use ops_mcp.Openapi.Parse.Raw.{load_doc}
use ops_mcp.Openapi.Parse.Extract.{extract_operations}
use ops_mcp.Openapi.Registry.Load.{
  Environment, LoadError, Loading, Registry, bad_doc, bad_discovery, map_err, load_ops, load_api,
  load_apis, load, get_tool,
}
use ops_mcp.Openapi.Registry.Tools.{
  entry_of, IsClean, selected, load_ops_lem, Contributes, ContributeAll, joined, map_err-eq-ok,
  selects_iff,
}
use ops_mcp.Prelude.Keyed.{lookup-keyed, keys-keyed}
use ops_mcp.Prelude.{
  ◌≡◌, refl, sym, ap, ◌∙◌, ◌⊎◌, inl, inr, some, List, [], ◌∷◌, ◌++◌, map, arith, nat_eq, length,
  all, Has, Distinct, str_eq, lookup, insert, keys, ok, err, >>=-eq-ok, Result-cases, ok_injective,
}

module _ (env : Environment) where
  load_api_lem :
      (svc : ApiService) (r r' : Registry)
      → load_api env svc r ≡ ok r'
      → IsClean env r.tools
      → (ts : List ToolMeta) × Contributes env svc ts
        × (r'.tools ≡ r.tools ++ map entry_of ts)
        × IsClean env r'.tools
        × (r'.by_api ≡ insert svc.name (length ts) r.by_api)
  unfolding load_api
  load_api_lem svc r r' h c =
      let (doc, got_doc, h1) =
        >>=-eq-ok (map_err bad_doc (load_doc env.read svc.openapi_path)) _ h in
      let (disc, got_disc, h2) =
        >>=-eq-ok
          (map_err (bad_discovery svc.name)
            (new_discovery_matcher env.engine env.unicode_upper svc.discovery))
          _ h1 in
      let ops = (extract_operations env.unicode_lower svc.name doc).0 in
      let start : Loading = record { tools = r.tools; seen_local = []; count = 0 } in
      let (s, ran, same) = >>=-eq-ok (load_ops env svc disc ops start) _ h2 in
      let (grown, clean, counted) = load_ops_lem env svc disc ops start s ran c in
      let ts = selected env svc disc ops in
      let compiled = map_err-eq-ok env (bad_discovery svc.name) _ got_disc in
      (
        ts,
        record {
          doc = doc;
          disc = disc;
          loaded = map_err-eq-ok env bad_doc _ got_doc;
          compiled = compiled;
          tools = refl;
          exposed = λ op. selects_iff env svc disc op compiled;
        },
        ap (λ (x : Registry). x.tools) (sym (ok_injective same)) ∙ grown,
        subst (λ (x : Registry). IsClean env x.tools) (ok_injective same) clean,
        ap (λ (x : Registry). x.by_api) (sym (ok_injective same))
            ∙ ap (λ n. insert svc.name n r.by_api) (counted ∙ omega arith),
      )

  load_apis_lem :
      (svcs : List ApiService) (r r' : Registry)
      → load_apis env svcs r ≡ ok r'
      → IsClean env r.tools
      → (tss : List (List ToolMeta)) × ContributeAll env svcs tss
        × (r'.tools ≡ r.tools ++ map entry_of (joined env tss))
        × IsClean env r'.tools
  unfolding load_apis
  load_apis_lem [] r r' h c =
      ([], tt, rw (← ok_injective h) (sym (append-nil r.tools)), rw (← ok_injective h) c)
  load_apis_lem (svc ∷ svcs) r r' h c =
      let (r1, one, more) = >>=-eq-ok (load_api env svc r) _ h in
      let (ts, first, grown, clean, _) = load_api_lem svc r r1 one c in
      let (tss, rest, all, clean') = load_apis_lem svcs r1 r' more clean in
      (
        ts ∷ tss,
        (first, rest),
        all
            ∙ ap (λ m. m ++ map entry_of (joined env tss)) grown
            ∙ append_assoc r.tools _ _
            ∙ ap (λ m. r.tools ++ m) (sym (map-append entry_of ts (joined env tss))),
        clean',
      )

-- What a registry holds after a load of the APIs `apis`.
pub record LoadedFrom (env : Environment) (apis : List ApiService) (r : Registry) : Type 0 where
  pub per_api : List (List ToolMeta)
  pub contributed : ContributeAll env apis per_api
  pub tools : r.tools ≡ map entry_of (joined env per_api)
  pub clean : IsClean env r.tools
  -- Get finds each tool by its name.
  pub found : (t : ToolMeta) → Has t (joined env per_api) → get_tool t.name r ≡ some t

abbrev empty_registry : Registry
empty_registry = record { tools = []; by_api = [] }

IsClean-empty : (env : Environment) → IsClean env []
unfolding keys
IsClean-empty env = record { distinct = tt; free = tt }

-- A load either fails and leaves the registry as it was, or it succeeds, and the registry then
-- holds the tools of the exposed operations of each API, in order, under distinct names that no
-- disk plugin has, Get finds each of them by its name, and the number returned is their number.
pub load_lem :
    (env : Environment) (apis : List ApiService) (r : Registry)
    → ((e : LoadError) × (load env apis r ≡ (r, err e)))
      ⊎ ((new : Registry) × (load env apis r ≡ (new, ok (length new.tools)))
          × LoadedFrom env apis new)
unfolding load get_tool
load_lem env apis r = elim (Result-cases (load_apis env apis empty_registry)) [
  | inl (e, failed) ↦ inl (e, rw (failed, load) refl)
  | inr (new, loaded) ↦
      let (tss, contributed, tools, clean) =
        load_apis_lem env apis empty_registry new loaded (IsClean-empty env) in
      inr (
        new,
        rw (loaded, load) refl,
        record {
          per_api = tss;
          contributed = contributed;
          tools = tools;
          clean = clean;
          found = λ t h.
              ap (lookup t.name) tools
              ∙ lookup-keyed (λ u. u.name) (joined env tss) t
                  (subst Distinct (keys-keyed (λ u. u.name) (joined env tss))
                    (subst (λ m. Distinct (keys m)) tools clean.distinct))
                  h;
        },
      )
]

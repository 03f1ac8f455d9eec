-- ===== src/Openapi/Registry/Load.antt =====
-- Load of registry.go. What it reads from outside comes in as an `Environment`.
use ops_mcp.Model.Api.{ApiService, ApiSummary}
use ops_mcp.Openapi.Operation.{Operation}
use ops_mcp.Openapi.PathMatch.{Engine}
use ops_mcp.Openapi.Matcher.{
  DiscoveryError, DiscoveryMatcher, new_discovery_matcher, match_discovery,
}
use ops_mcp.Openapi.Schema.Build.{ToolMeta, build_tool_meta, member}
use ops_mcp.Openapi.Parse.Raw.{RawDoc, DocError, load_doc}
use ops_mcp.Openapi.Parse.Extract.{extract_operations, duplicate_reason}
use ops_mcp.Prelude.Sorting.{sort_by}
use ops_mcp.Prelude.{
  values, ℕ, ◌+◌, not, Option, none, some, List, [], ◌∷◌, map, if◌then◌else◌, ◌==◌, nat_eq, length,
  Str, str_eq, is_empty, Dict, lookup, has, insert, keys, Result, ok, err, ◌>>=◌,
}

-- Regular expressions, the Unicode case tables, reading and decoding a document, and the names of
-- the disk plugins that `reserved` gives.
pub record Environment : Type 0 where
  pub engine : Engine
  pub unicode_lower : Str → Str
  pub unicode_upper : Str → Str
  pub read : Str → Result DocError RawDoc
  pub reserved : List Str

pub data LoadError : Type 0 where
  bad_doc : DocError → LoadError
  bad_discovery : Str → DiscoveryError → LoadError
  duplicate_operation : Str → Str → LoadError
  duplicate_tool plugin_conflict : Str → LoadError

-- newTools, and the variables of the loop over one API's operations.
pub record Loading : Type 0 where
  pub tools : Dict ToolMeta
  pub seen_local : List Str
  pub count : ℕ

pub record Registry : Type 0 where
  pub tools : Dict ToolMeta
  pub by_api : Dict ℕ

abbrev pub map_err {ℓ} : {A : Type ℓ} {E F : Type 0} → (E → F) → Result E A → Result F A
map_err f (ok a) = ok a
map_err f (err e) = err (f e)

module _ (env : Environment) where
  -- An operation that discovery selects becomes a tool, unless its name is taken.
  unfoldable pub register : ApiService → Operation → Loading → Result LoadError Loading
  register svc op s =
      if member op.operation_id s.seen_local
      then err (duplicate_operation svc.name op.operation_id)
      else let meta = (build_tool_meta svc.prefix op).0 in
        if has meta.name s.tools
        then err (duplicate_tool meta.name)
        else if member meta.name env.reserved
        then err (plugin_conflict meta.name)
        else ok (record {
          tools = insert meta.name meta s.tools;
          seen_local = op.operation_id ∷ s.seen_local;
          count = s.count + 1;
        })

  -- One round of the loop over an API's operations.
  unfoldable pub load_op :
      ApiService → DiscoveryMatcher → Operation → Loading → Result LoadError Loading
  load_op svc disc op s =
      if op.skip_reason == duplicate_reason
      then err (duplicate_operation svc.name op.operation_id)
      else if not (is_empty op.skip_reason)
      then ok s
      else if not (match_discovery env.engine env.unicode_upper disc op)
      then ok s
      else register svc op s

  unfoldable pub load_ops :
      ApiService → DiscoveryMatcher → List Operation → Loading → Result LoadError Loading
  load_ops svc disc [] s = ok s
  load_ops svc disc (op ∷ ops) s = load_op svc disc op s >>= λ s'. load_ops svc disc ops s'

  -- One round of the loop over the APIs.
  unfoldable pub load_api : ApiService → Registry → Result LoadError Registry
  load_api svc r = do
    doc ← map_err bad_doc (load_doc env.read svc.openapi_path)
    disc ←
        map_err (bad_discovery svc.name)
          (new_discovery_matcher env.engine env.unicode_upper svc.discovery)
    let ops = (extract_operations env.unicode_lower svc.name doc).0
    s ← load_ops svc disc ops (record { tools = r.tools; seen_local = []; count = 0 })
    ok (record { tools = s.tools; by_api = insert svc.name s.count r.by_api })

  unfoldable pub load_apis : List ApiService → Registry → Result LoadError Registry
  load_apis [] r = ok r
  load_apis (svc ∷ svcs) r = load_api svc r >>= λ r'. load_apis svcs r'

  -- The registry is replaced only when everything has loaded.
  unfoldable pub load : List ApiService → Registry → Registry × Result LoadError ℕ
  load apis r = elim (load_apis apis (record { tools = []; by_api = [] })) [
    | err e ↦ (r, err e)
    | ok new ↦ (new, ok (length new.tools))
  ]

-- Get, Count, CountForAPI.
unfoldable pub get_tool : Str → Registry → Option ToolMeta
get_tool name r = lookup name r.tools

unfoldable pub count_tools : Registry → ℕ
count_tools r = length r.tools

unfoldable pub count_for_api : Str → Registry → ℕ
count_for_api name r = elim (lookup name r.by_api) [ none ↦ 0 | some n ↦ n ]

-- List.
unfoldable pub list_tools : Registry → List ToolMeta
list_tools r = sort_by (λ t. t.name) (values r.tools)

-- Names.
unfoldable pub tool_names : Registry → List Str
tool_names r = keys r.tools

-- ListAPISummaries, over the summaries of the configuration.
with_count : Registry → ApiSummary → ApiSummary
with_count r s = record s { tool_count = count_for_api s.name r }

unfoldable pub list_api_summaries : Registry → List ApiSummary → List ApiSummary
unfolding with_count
list_api_summaries r base = map (with_count r) base

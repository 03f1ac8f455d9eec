-- ===== src/Openapi/Tests.antt =====
-- One small API document through the operations of internal/openapi, and the theorems about them
-- at inputs where their hypotheses hold.
use mathlib.Core.Path.{subst}
use ops_mcp.Openapi.Registry.Load.{load_apis, load_api, load_ops, load_op, register}
use ops_mcp.Openapi.Parse.Raw.{load_doc}
use ops_mcp.Openapi.Parse.Extract.{
  visit_paths, visit_methods, visit, make_op, make_warns, projected,
}
use ops_mcp.Openapi.Parse.Params.{merged, add_all, add, key_of, project}
use ops_mcp.Openapi.Matcher.{new_rule_matcher, match_rule, match_field}
use ops_mcp.Openapi.Schema.Build.{draft_of, member, input_schema_of}
use ops_mcp.Openapi.Schema.Fill.{fill_segs, template_name}
use ops_mcp.Openapi.PathMatch.{is_template_seg, match_segs}
use ops_mcp.Openapi.Registry.Call.{validate_required}
use ops_mcp.Prelude.Value.{Value, string, given}
use ops_mcp.Prelude.SplitJoin.{Lacks}
use ops_mcp.Model.Api.{ApiService, ApiDiscovery}
use ops_mcp.Openapi.Operation.{Operation}
use ops_mcp.Openapi.PathMatch.{Engine, match_path, match_template_or_exact, split_path}
use ops_mcp.Openapi.PathMatch.Segments.{Aligned, match_template_or_exact_iff}
use ops_mcp.Openapi.Matcher.{DiscoveryMatcher, method, path, new_discovery_matcher, match_discovery}
use ops_mcp.Openapi.Matcher.Selects.{Exposed, match_discovery_iff}
use ops_mcp.Openapi.Schema.Build.{build_tool_meta, unique_strings}
use ops_mcp.Openapi.Schema.Fill.{fill_path}
use ops_mcp.Openapi.Schema.Fill.Segments.{
  IsGiven, FilledAll, template_name-IsTemplate, fill_path_iff, fill_path_segments,
}
use ops_mcp.Openapi.Parse.Raw.{RawParameter, RawOperation, RawPathItem, RawDoc}
use ops_mcp.Openapi.Parse.Params.{merge_parameters}
use ops_mcp.Openapi.Parse.Params.Merged.{merge_parameters_lem, Chosen}
use ops_mcp.Openapi.Parse.Extract.{extract_operations}
use ops_mcp.Openapi.Registry.Load.{Environment, LoadError, Registry, plugin_conflict, load}
use ops_mcp.Openapi.Registry.Tools.Loaded.{LoadedFrom, load_lem}
use ops_mcp.Openapi.Registry.Call.{validate_args}
use ops_mcp.Openapi.Registry.Call.Arguments.{DeclaresPath, fill_path_of_validate_args}
use ops_mcp.Prelude.{
  keep, ◌≡◌, refl, sym, ap, ◌↔◌, ◌⊎◌, true, false, none, some, List, [], ◌∷◌, map, arith, nat_eq,
  length, All, here, Str, str, str_beq, str_eq, has_prefix, has_suffix, trim_prefix, trim_suffix,
  trim_byte, trim_space, to_lower, to_upper, split, join, Dict, lookup, insert, keys, ok, err,
}

-- A pattern is matched as the text that it is.
abbrev plain_engine : Engine
plain_engine = record { compile = λ p. some (λ s. str_beq p s); path_match = λ p s. false }

abbrev same : Str → Str
same s = s

abbrev id_param : RawParameter
id_param = record {
  name = str "id";
  location = str "Path";
  required = false;
  description = [];
  schema = none;
  ref = [];
}

abbrev get_host : RawOperation
get_host = record {
  operation_id = str "getHost";
  tags = str "host" ∷ [];
  summary = [];
  description = str "one host";
  parameters = id_param ∷ [];
  request_body = none;
}

abbrev host_item : RawPathItem
host_item = record {
  parameters = record id_param { description = str "of the path" } ∷ [];
  get = some get_host;
  put = none;
  post = none;
  delete = none;
  options = none;
  head = none;
  patch = none;
  trace = none;
}

abbrev cmdb_doc : RawDoc
cmdb_doc = record {
  openapi = str "3.0.1";
  paths = (str "/host/{id}", host_item) ∷ [];
  schemas = none;
}

abbrev cmdb_discovery : ApiDiscovery
cmdb_discovery = record {
  include =
      record {
        operation_ids = [];
        methods = str "get" ∷ [];
        paths = str "/host/{x}" ∷ [];
        tags = [];
      }
      ∷ [];
  exclude = [];
}

abbrev cmdb : ApiService
cmdb = record {
  name = str "cmdb";
  description = [];
  openapi_path = str "cmdb.yaml";
  endpoint = record { base_url = str "http://cmdb"; timeout = []; verify_tls = none };
  prefix = str "cmdb_";
  labels = [];
  headers = [];
  discovery = cmdb_discovery;
}

abbrev cmdb_env : List Str → Environment
cmdb_env reserved = record {
  engine = plain_engine;
  unicode_lower = same;
  unicode_upper = same;
  read = λ p. ok cmdb_doc;
  reserved = reserved;
}

abbrev no_tools : Registry
no_tools = record { tools = []; by_api = [] }

-- Opening this opens what the tests run.
openapi : Unit {0}
unfolding load load_apis load_api load_ops load_op register load_doc extract_operations visit_paths
    visit_methods visit make_op make_warns projected merge_parameters merged add_all add key_of
    project new_discovery_matcher new_rule_matcher match_discovery match_rule match_field match_path
    build_tool_meta draft_of member unique_strings input_schema_of fill_path fill_segs template_name
    is_template_seg split_path match_template_or_exact match_segs validate_args validate_required
    lookup insert keys str_beq has_prefix has_suffix trim_prefix trim_suffix trim_byte split join
    to_upper to_lower given trim_space
openapi = tt

loaded_names :
    (map (λ b. b.0) (load (cmdb_env []) (cmdb ∷ []) no_tools).0.tools ≡ str "cmdb_getHost" ∷ [])
    × ((load (cmdb_env (str "cmdb_getHost" ∷ [])) (cmdb ∷ []) no_tools).1
        ≡ err (plugin_conflict (str "cmdb_getHost")))
unfolding openapi
loaded_names = (refl, refl)

load_example :
    ((e : LoadError) × (load (cmdb_env []) (cmdb ∷ []) no_tools ≡ (no_tools, err e)))
    ⊎ ((new : Registry) × (load (cmdb_env []) (cmdb ∷ []) no_tools ≡ (new, ok (length new.tools)))
        × LoadedFrom (cmdb_env []) (cmdb ∷ []) new)
load_example = load_lem (cmdb_env []) (cmdb ∷ []) no_tools

abbrev id_7 : Dict Value
id_7 = (str "id", string (str "7")) ∷ []

-- fmt.Sprint of a string is the string.
abbrev show : Value → Str
show (string s) = s
show v = []

abbrev host_op : Operation
host_op = record {
  api_name = str "cmdb";
  operation_id = str "getHost";
  method = str "GET";
  path = str "/host/{id}";
  tags = str "host" ∷ [];
  summary = [];
  description = str "one host";
  parameters =
      record {
        name = str "id";
        location = str "path";
        required = true;
        description = [];
        schema = (str "type", string (str "string")) ∷ [];
      }
      ∷ [];
  request_body = none;
  skip_reason = [];
}

extracted : (extract_operations same (str "cmdb") cmdb_doc).0 ≡ host_op ∷ []
unfolding openapi
extracted = refl

abbrev cmdb_matcher : DiscoveryMatcher
cmdb_matcher = record {
  include = record {
    children =
        record { matchers = method (str "GET" ∷ []) ∷ path (str "/host/{x}" ∷ []) ∷ [] } ∷ [];
    empty = true;
  };
  exclude = record { children = []; empty = false };
}

match_discovery_example :
    (match_discovery plain_engine same cmdb_matcher host_op ≡ true)
    ↔ Exposed plain_engine same host_op cmdb_discovery
unfolding openapi
match_discovery_example =
    match_discovery_iff plain_engine same cmdb_discovery cmdb_matcher host_op refl

merge_parameters_example :
    Chosen same
      (id_param ∷ id_param ∷ [])
      (str "path:id" ∷ [])
      (merge_parameters same (id_param ∷ []) (id_param ∷ [])).0
unfolding openapi keep
merge_parameters_example = merge_parameters_lem same (id_param ∷ []) (id_param ∷ [])

match_template_or_exact_example :
    (match_template_or_exact (str "/host/{x}/") (str "/host/7") ≡ true)
    ↔ Aligned (split_path (str "/host/{x}/")) (split_path (str "/host/7"))
match_template_or_exact_example = match_template_or_exact_iff (str "/host/{x}/") (str "/host/7")

fill_path_example :
    ((p : Str) × (fill_path show (str "/host/{id}") id_7 ≡ ok p))
    ↔ All (IsGiven show id_7) (split b'/' (str "/host/{id}"))
fill_path_example = fill_path_iff show (str "/host/{id}") id_7

only_7 : (name : Str) (v : Value) → given name id_7 ≡ some v → v ≡ string (str "7")
unfolding given lookup
only_7 name v h = ground arith

Lacks-show : (name : Str) (v : Value) → given name id_7 ≡ some v → Lacks b'/' (show v)
Lacks-show name v h =
    let e : show v ≡ str "7" = ap show (only_7 name v h) in
    subst (Lacks b'/') (sym e) (omega arith, tt)

fill_path_segments_example :
    FilledAll show id_7 (split b'/' (str "/host/{id}")) (split b'/' (str "/host/7"))
unfolding openapi
fill_path_segments_example =
    fill_path_segments show (str "/host/{id}") id_7 (str "/host/7") Lacks-show refl

declared : DeclaresPath host_op
unfolding openapi
declared = (
  λ t. absurd (cc t.2),
  (λ t. absurd (ground (arith, t.2)), (λ t. here (template_name-IsTemplate t, refl), tt)),
)

fill_path_of_validate_args_example :
    (p : Str) × (fill_path show (build_tool_meta (str "cmdb_") host_op).0.path id_7 ≡ ok p)
unfolding openapi
fill_path_of_validate_args_example =
    fill_path_of_validate_args show (str "cmdb_") host_op id_7 declared refl

-- ===== src/Api/Tests.antt =====
-- A service with one plugin that is started and reloaded, and requests to its MCP server.
use ops_mcp.Prelude.Value.{null}
use ops_mcp.Config.Samples.{same, no_files, app_file, loading}
use ops_mcp.Config.Errors.{missing}
use ops_mcp.Config.Manager.{nop, start}
use ops_mcp.Model.Plugin.{PluginMeta}
use ops_mcp.Openapi.PathMatch.{Engine}
use ops_mcp.Openapi.Parse.Raw.{unreadable}
use ops_mcp.Openapi.Registry.Load.{
  count_tools, Environment, load as load_tools, load_apis as load_all_apis, tool_names,
}
use ops_mcp.Plugins.Loader.{load_one, load_all, validate_meta, check_inputs, is_blank}
use ops_mcp.Plugins.Manager.{load as load_plugins, next_plugins, add_plugin, names, count}
use ops_mcp.Api.Reload.{
  Found, Service, assembled, run, start_parts, names_of, reload, reload_tools, reload_plugins,
  reload_sources, reload_disk, reloaded as replied,
}
use ops_mcp.Api.Reload.Served.{IsServing, started_up, reloaded, Reachable-IsServing}
use ops_mcp.Api.Routes.{
  ApiRequest, Web, add_pairs, answer, api_error, cut_pair, parse_label_query, serve,
}
use ops_mcp.Api.Routes.Answered.{serve_lem}
use ops_mcp.Config.Lookup.{auth_token, list_apis}
use ops_mcp.Guard.Auth.{extract_token, is_public_path, require_auth}
use ops_mcp.Mcp.Server.{tools_count}
use ops_mcp.Prelude.{
  ◌≡◌, refl, true, false, none, some, [], ◌∷◌, nat_eq, str, str_eq, err, ok, split, trim_space, pos,
  insert, str_beq,
}
use ops_mcp.Prelude.Sorting.{sort_by}

abbrev uptime : PluginMeta
uptime = record {
  name = str "uptime";
  version = str "1";
  description = str "d";
  plugin_type = str "ssh";
  target_type = str "host";
  input = [];
  runtime = str "javascript";
  timeout = [];
  path = [];
  script = [];
}

abbrev engine : Engine
engine = record { compile = λ p. none; path_match = λ p s. false }

abbrev no_documents : Environment
no_documents = record {
  engine = engine;
  unicode_lower = same;
  unicode_upper = same;
  read = λ p. err (unreadable p);
  reserved = [];
}

abbrev found : Found
found = record {
  system = no_files;
  documents = no_documents;
  walk_ok = true;
  dirs =
      record {
        dir = str "plugins/uptime";
        readable = true;
        yml = some uptime;
        main_js = some (str "main");
      }
      ∷ [];
}

-- The names that the tests compute with.
api : Unit {0}
unfolding loading sort_by list_apis load_tools load_all_apis tool_names load_one load_all
    validate_meta check_inputs is_blank load_plugins next_plugins add_plugin names count run
    start_parts names_of reload reload_tools reload_plugins reload_sources reload_disk tools_count
    count_tools
api = tt

abbrev first : Service
first = elim (run found (some nop) [] app_file) [
  | some s ↦ s
  | none ↦ assembled (start [] app_file)
]

starts : run found (some nop) [] app_file ≡ some first
unfolding api
starts = refl

-- The plugins are gone at the reload, and the files of the hosts as well.
abbrev later : Found
later = record found { dirs = []; system = record no_files { hosts_at = λ p. missing } }

reloads : (reload later (record { plugins = false; config = false }) first).1 ≡ replied 0 0
unfolding api
reloads = refl

Reachable-IsServing_example :
    IsServing (reload later (record { plugins = true; config = true }) first).0
Reachable-IsServing_example = Reachable-IsServing (
    reloaded (started_up found (some nop) [] app_file starts) later
      (record { plugins = true; config = true }) refl)

abbrev web : Web
web = record {
  around = record {
    codec = record {
      request = λ raw. none;
      protocol_version = λ p. none;
      call_params = λ p. none;
      value = λ s. none;
      marshal = λ r. [];
    };
    parse_duration = λ s. none;
    run = λ script args limit. ok null;
    default_timeout = pos 5;
    outside = record {
      sprint = λ v. [];
      get_api = λ n. none;
      parse_duration = λ s. none;
      default_timeout = pos 5;
      http_do = λ r. ok null;
    };
  };
  peek_method = λ s. [];
  bind = λ b. record { plugins = false; config = false };
  atoi = λ s. none;
  new_id = str "id";
  has_index = true;
}

-- A service that asks for a token, and the reload that carries none.
abbrev protected : Service
protected =
    let c = first.config in
    record first {
      config = record c {
        app = record c.app { server = record c.app.server { auth = record { token = str "t" } } };
      };
    }

abbrev post_reload : ApiRequest
post_reload = record {
  auth = record {
    method = str "POST";
    path = str "/api/reload";
    authorization = [];
    api_key = [];
    token = [];
  };
  session = [];
  body = none;
  labels = str "site=a, role=web" ∷ str "x" ∷ str "=y" ∷ [];
  limit = [];
  offset = [];
}

serve_example :
    serve web found protected post_reload ≡ (protected, answer 401 (api_error (str "unauthorized")))
unfolding require_auth is_public_path extract_token auth_token str_beq
serve_example = (serve_lem web found protected post_reload).1 refl

labels_read :
    parse_label_query post_reload.labels [] ≡ (str "site", str "a") ∷ (str "role", str "web") ∷ []
unfolding parse_label_query add_pairs cut_pair split trim_space insert str_beq
labels_read = refl

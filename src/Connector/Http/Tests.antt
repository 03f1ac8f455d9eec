-- ===== src/Connector/Http/Tests.antt =====
-- A call of a configured API and of a URL.
use ops_mcp.Prelude.Value.{null}
use ops_mcp.Prelude.{
  str, [], some, lookup, Dict, trim_space, false, none, insert, Str, has_prefix, ◌∷◌, ok, pos,
  str_beq, Bool, to_upper, true, trim_right_byte, ◌≡◌, is_ascii, upper_byte, not, ◌<ℤ◌, refl,
}
use ops_mcp.Config.Lookup.{find, get_api, default_plugin_timeout}
use ops_mcp.Config.Manager.{Manager, start}
use ops_mcp.Config.Samples.{app_file}
use ops_mcp.Connector.Http.{HttpRequest, Url, Sent, Library, prepare, set_query}
use ops_mcp.Connector.Http.Prepared.{GoesTo, HeadersOf, prepare_lem}
use ops_mcp.Model.Api.{ApiService, verify_tls_enabled, endpoint_timeout}
use ops_mcp.Model.Errors.{invalid, text}

abbrev cmdb : ApiService
cmdb = record {
  name = str "cmdb";
  description = [];
  openapi_path = [];
  endpoint = record { base_url = str "https://h/"; timeout = []; verify_tls = some false };
  prefix = [];
  labels = [];
  headers = (str "X-Key", str "k") ∷ [];
  discovery = record { include = []; exclude = [] };
}

abbrev bare : Manager
bare = start [] app_file

abbrev manager : Manager
manager = record bare { resources = record bare.resources { apis = (str "cmdb", cmdb) ∷ [] } }

-- The parsed URL keeps its text.
abbrev library : Library
library = record {
  parse_url = λ s. some (record { scheme = str "https"; host = str "h"; rest = s; query = [] });
  new_request = λ m u. none;
  canonical = λ s. s;
  marshal = λ v. ok [];
  unmarshal = λ s. none;
  json_valid = λ s. false;
  unicode_lower = λ s. s;
  unicode_upper = λ s. s;
  parse_duration = λ s. none;
}

abbrev request : HttpRequest
request = record {
  api = str "cmdb";
  url = [];
  method = str "get";
  path = str "hosts";
  query = (str "q", str "1") ∷ [];
  headers = [];
  body = null;
  timeout = pos 0;
  verify_tls = none;
}

abbrev sent : Sent
sent = record {
  method = str "GET";
  url = record {
    scheme = str "https";
    host = str "h";
    rest = str "https://h/hosts";
    query = (str "q", str "1" ∷ []) ∷ [];
  };
  headers = (str "X-Key", str "k") ∷ [];
  body = none;
  timeout = pos 30000000000;
  insecure_skip_verify = true;
}

prepares : prepare library manager request ≡ ok sent
unfolding prepare get_api find lookup insert str_beq trim_space trim_right_byte has_prefix to_upper
    is_ascii upper_byte verify_tls_enabled endpoint_timeout default_plugin_timeout
prepares = refl

prepare_example :
    (u : Url) × (base : Dict Str) × (verify : Bool) × GoesTo library manager request u base verify
    × (sent.url ≡ record u { query = set_query library manager request.query u.query })
    × (sent.insecure_skip_verify ≡ not verify)
    × HeadersOf library manager request base sent.headers
    × (pos 0 <ℤ sent.timeout)
prepare_example = prepare_lem library manager request sent prepares

both_given :
    prepare library manager (record request { url = str "https://x" })
    ≡ invalid (text (str "api and url are mutually exclusive"))
unfolding prepare trim_space has_prefix to_upper is_ascii upper_byte
both_given = refl

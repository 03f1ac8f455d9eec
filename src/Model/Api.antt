-- ===== src/Model/Api.antt =====
-- model/api.go. `parse_duration` is time.ParseDuration, in nanoseconds.
use ops_mcp.Prelude.{
  ℕ, Bool, true, not, Option, none, some, List, if◌then◌else◌, nat_eq, is_nil, ℤ, pos, is_nonpos,
  Str, str_eq, is_empty, Dict,
}

pub record ApiEndpoint : Type 0 where
  pub base_url : Str
  pub timeout : Str
  pub verify_tls : Option Bool

unfoldable pub verify_tls_enabled : ApiEndpoint → Bool
verify_tls_enabled e = elim e.verify_tls [ none ↦ true | some b ↦ b ]

unfoldable pub endpoint_timeout : (Str → Option ℤ) → ApiEndpoint → ℤ
endpoint_timeout parse_duration e =
    if is_empty e.timeout then pos 0 else elim (parse_duration e.timeout) [
      | none ↦ pos 0
      | some d ↦ if is_nonpos d then pos 0 else d
    ]

pub record DiscoveryRule : Type 0 where
  pub operation_ids : List Str
  pub methods : List Str
  pub paths : List Str
  pub tags : List Str

pub record ApiDiscovery : Type 0 where
  pub include : List DiscoveryRule
  pub exclude : List DiscoveryRule

pub record ApiService : Type 0 where
  pub name : Str
  pub description : Str
  pub openapi_path : Str
  pub endpoint : ApiEndpoint
  pub prefix : Str
  pub labels : Dict Str
  pub headers : Dict Str
  pub discovery : ApiDiscovery

pub record ApiSummary : Type 0 where
  pub name : Str
  pub description : Str
  pub labels : Dict Str
  pub base_url : Str
  pub prefix : Str
  pub openapi_path : Str
  pub timeout : Str
  pub verify_tls : Bool
  pub has_headers : Bool
  pub tool_count : ℕ

-- ToSummary of an APIService.
unfoldable pub api_summary : ApiService → ApiSummary
unfolding verify_tls_enabled
api_summary a = record {
  name = a.name;
  description = a.description;
  labels = a.labels;
  base_url = a.endpoint.base_url;
  prefix = a.prefix;
  openapi_path = a.openapi_path;
  timeout = a.endpoint.timeout;
  verify_tls = verify_tls_enabled a.endpoint;
  has_headers = not (is_nil a.headers);
  tool_count = 0;
}

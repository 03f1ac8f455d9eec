-- ===== src/Api/Routes.antt =====
-- The router and the handlers of api/server.go.
pub mod Answered
use ops_mcp.Api.Reload.{Found, ReloadRequest, Reply, Service, failed, reload, reloaded}
use ops_mcp.Config.Lookup.{
  SnmpDeviceListOptions, auth_token, list_api_summaries, list_command_summaries,
  list_database_summaries, list_host_summaries, list_kafka_summaries, list_redis_summaries,
  list_snmp_device_summaries,
}
use ops_mcp.Guard.Auth.{Request, Verdict, next, require_auth, unauthorized}
use ops_mcp.Mcp.Protocol.{Response}
use ops_mcp.Mcp.Server.{Surroundings, handle, tools_list}
use ops_mcp.Model.Api.{ApiSummary}
use ops_mcp.Model.Command.{CommandSummary}
use ops_mcp.Model.Database.{DatabaseSummary}
use ops_mcp.Model.Host.{HostSummary}
use ops_mcp.Model.Kafka.{KafkaSummary}
use ops_mcp.Model.Plugin.{PluginMeta}
use ops_mcp.Model.Redis.{RedisSummary}
use ops_mcp.Model.Snmp.{SnmpDeviceSummary}
use ops_mcp.Openapi.Registry.Load.{Registry, list_api_summaries as registry_summaries}
use ops_mcp.Plugins.Manager.{list}
use ops_mcp.Prelude.Value.{Value}
use ops_mcp.Prelude.{
  Str, ℕ, Dict, Option, List, [], str, lookup, none, ℤ, ◌∷◌, if◌then◌else◌, some, Bool, ◌==◌,
  is_empty, trim_space, split, pos, not, insert, str_eq, nat_eq,
}

-- What the handlers read of a request; `labels` is c.Query("labels") and then the label parameters.
pub record ApiRequest : Type 0 where
  pub auth : Request
  pub session : Str
  pub body : Option Str
  pub labels : List Str
  pub limit : Str
  pub offset : Str

pub data Body : Type 0 where
  no_body status_ok index_page : Body
  api_error : Str → Body
  mcp_answer : Response → Body
  plugins_body : List PluginMeta → Body
  tools_body : Value → Body
  hosts_body : List HostSummary → Body
  databases_body : List DatabaseSummary → Body
  redis_body : List RedisSummary → Body
  kafka_body : List KafkaSummary → Body
  apis_body : List ApiSummary → Body
  commands_body : List CommandSummary → Body
  devices_body : List SnmpDeviceSummary → Body
  reload_body : Reply → Body

pub record Answer : Type 0 where
  pub status : ℕ
  pub session : Option Str
  pub content : Body

abbrev pub answer : ℕ → Body → Answer
answer status content = record { status = status; session = none; content = content }

-- encoding/json, strconv.Atoi, a new UUID, and whether the page is embedded.
pub record Web : Type 0 where
  pub around : Surroundings
  pub peek_method : Str → Str
  pub bind : Option Str → ReloadRequest
  pub atoi : Str → Option ℤ
  pub new_id : Str
  pub has_index : Bool

pub data Route : Type 0 where
  mcp_post mcp_get mcp_delete health index plugins tools : Route
  hosts databases redis kafka apis commands snmp reloads : Route

abbrev pub post_routes : Dict Route
post_routes = (str "/mcp", mcp_post) ∷ (str "/api/reload", reloads) ∷ []

abbrev pub get_routes : Dict Route
get_routes =
    (str "/mcp", mcp_get)
    ∷ (str "/api/plugins", plugins)
    ∷ (str "/api/tools", tools)
    ∷ (str "/api/hosts", hosts)
    ∷ (str "/api/databases", databases)
    ∷ (str "/api/redis", redis)
    ∷ (str "/api/kafka", kafka)
    ∷ (str "/api/apis", apis)
    ∷ (str "/api/commands", commands)
    ∷ (str "/api/snmp", snmp)
    ∷ (str "/health", health)
    ∷ (str "/", index)
    ∷ (str "/index.html", index)
    ∷ []

abbrev pub routes_of : Str → Dict Route
routes_of method =
    if method == str "POST"
    then post_routes
    else if method == str "GET"
    then get_routes
    else if method == str "DELETE"
    then (str "/mcp", mcp_delete) ∷ []
    else []

unfoldable pub cut_pair : Str → Option (Str × Str)
cut_pair [] = none
cut_pair (c ∷ s) =
    let rest = cut_pair s in
    if c == b'=' then some ([], s) else elim rest [ none ↦ none | some (k, v) ↦ some (c ∷ k, v) ]

abbrev pub add_label : Option (Str × Str) → Dict Str → Dict Str
add_label none out = out
add_label (some (k, v)) out = if is_empty k then out else insert k v out

unfoldable pub add_pairs : List Str → Dict Str → Dict Str
unfolding cut_pair
add_pairs [] out = out
add_pairs (p ∷ ps) out = add_pairs ps (add_label (cut_pair (trim_space p)) out)

unfoldable pub parse_label_query : List Str → Dict Str → Dict Str
unfolding add_pairs
parse_label_query [] out = out
parse_label_query (part ∷ parts) out = parse_label_query parts (add_pairs (split b',' part) out)

abbrev pub number_or_zero : Option ℤ → ℤ
number_or_zero none = pos 0
number_or_zero (some n) = n

-- `none` is the panic of the slice, which Recovery answers.
abbrev pub devices_answer : Option (List SnmpDeviceSummary) → Answer
devices_answer none = answer 500 no_body
devices_answer (some list) = answer 200 (devices_body list)

abbrev pub api_summaries_of : Service → Option Registry → List ApiSummary
api_summaries_of s none = list_api_summaries s.config
api_summaries_of s (some r) = registry_summaries r (list_api_summaries s.config)

abbrev pub reload_answer : Reply → Answer
reload_answer (failed e) = answer 500 (reload_body (failed e))
reload_answer (reloaded p t) = answer 200 (reload_body (reloaded p t))

module _ (web : Web) where
  -- The session of an answer: a new one for an initialize without one, else that of the request.
  unfoldable pub session_of : Str → Str → Option Str
  session_of session body =
      if not (is_empty session)
      then some session
      else if web.peek_method body == str "initialize"
      then some web.new_id
      else none

  abbrev pub mcp_body : Str → Str → Option Response → Answer
  mcp_body session body none = record {
    status = 202;
    session = session_of session body;
    content = no_body;
  }
  mcp_body session body (some r) = record {
    status = 200;
    session = session_of session body;
    content = mcp_answer r;
  }

  unfoldable pub handle_mcp : Service → ApiRequest → Option Str → Answer
  unfolding session_of
  handle_mcp s req none = answer 400 (api_error (str "read body"))
  handle_mcp s req (some body) =
      if is_empty body
      then answer 400 (api_error (str "empty body"))
      else mcp_body req.session body (handle web.around s.mcp body)

  abbrev pub snmp_options : ApiRequest → SnmpDeviceListOptions
  snmp_options req = record {
    labels = parse_label_query req.labels [];
    limit = if is_empty req.limit then pos 0 else number_or_zero (web.atoi req.limit);
    offset = if is_empty req.offset then pos 0 else number_or_zero (web.atoi req.offset);
  }

  -- Every handler but reload.
  unfoldable pub read_route : Service → ApiRequest → Route → Answer
  unfolding handle_mcp parse_label_query
  read_route s req mcp_post = handle_mcp s req req.body
  read_route s req mcp_get =
      answer 405 (api_error (str "SSE stream not required for ops-mcp MVP; use POST /mcp"))
  read_route s req mcp_delete = answer 200 no_body
  read_route s req health = answer 200 status_ok
  read_route s req index = if web.has_index then answer 200 index_page else answer 500 no_body
  read_route s req plugins = answer 200 (plugins_body (list s.mcp.plugins))
  read_route s req tools = answer 200 (tools_body (tools_list s.mcp))
  read_route s req hosts = answer 200 (hosts_body (list_host_summaries s.config))
  read_route s req databases = answer 200 (databases_body (list_database_summaries s.config))
  read_route s req redis = answer 200 (redis_body (list_redis_summaries s.config))
  read_route s req kafka = answer 200 (kafka_body (list_kafka_summaries s.config))
  read_route s req apis = answer 200 (apis_body (api_summaries_of s s.mcp.api_tools))
  read_route s req commands = answer 200 (commands_body (list_command_summaries s.config))
  read_route s req snmp = devices_answer (list_snmp_device_summaries s.config (snmp_options req))
  read_route s req reloads = answer 404 no_body

  abbrev pub reload_route : Found → Service → ApiRequest → Service × Answer
  reload_route found s req =
      let (later, reply) = reload found (web.bind req.body) s in (later, reload_answer reply)

  -- A route that is not registered is answered with 404.
  abbrev pub routed : Found → Service → ApiRequest → Option Route → Service × Answer
  routed found s req none = (s, answer 404 no_body)
  routed found s req (some reloads) = reload_route found s req
  routed found s req (some route) = (s, read_route s req route)

  abbrev pub allowed : Found → Service → ApiRequest → Verdict → Service × Answer
  allowed found s req unauthorized = (s, answer 401 (api_error (str "unauthorized")))
  allowed found s req next = routed found s req (lookup req.auth.path (routes_of req.auth.method))

  unfoldable pub serve : Found → Service → ApiRequest → Service × Answer
  unfolding read_route
  serve found s req = allowed found s req (require_auth (auth_token s.config) req.auth)

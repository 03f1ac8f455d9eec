-- ===== src/Connector/Redis/Tests.antt =====
-- Small runs of the Redis operations, and the theorems about them at inputs where their hypotheses
-- hold.
use ops_mcp.Config.Lookup.{find, get_redis}
use ops_mcp.Config.Manager.{Manager, no_resources}
use ops_mcp.Connector.Redis.Client.{
  value, nil_reply, Client, Redis, lookup_instance, options_of, open_client, tls_of, dial,
}
use ops_mcp.Connector.Redis.Ranges.{lrange_result, lrange_open}
use ops_mcp.Connector.Redis.Ranges.Slices.{slice, lrange_open_lem, lrange_open_negative}
use ops_mcp.Connector.Redis.Scan.{collect, scan_loop, scan_call, scan_result, scan_ready, scan}
use ops_mcp.Connector.Redis.Scan.Loop.{EndsWithin}
use ops_mcp.Connector.Redis.Scan.Run.{Fetched}
use ops_mcp.Connector.Redis.Scan.Results.{scan_bound, scan_whole, scan_total, scan_cut}
use ops_mcp.Connector.Redis.Types.{LrangeRequest, ScanRequest, ScanResult}
use ops_mcp.Connector.Tls.{
  TlsConfig, Crypto, decode_content, resolve_material, root_cas, key_pair, redis_tls_on,
  build_redis_tls_config,
}
use ops_mcp.Connector.Tls.Configured.{Keeps, build_redis_tls_config_lem}
use ops_mcp.Guard.Limits.{clamp_limit}
use ops_mcp.Model.Errors.{AppError}
use ops_mcp.Model.Redis.{RedisTls, RedisInstance, redis_has_ca}
use ops_mcp.Prelude.Value.{null}
use mathlib.Core.Path.{subst}
use ops_mcp.Prelude.{
  ℕ, ◌≡◌, refl, sym, ap, ◌∙◌, inl, inr, true, false, none, some, List, [], ◌∷◌, arith,
  if◌then◌else◌, nat_eq, ◌==◌, length, take, drop, ℤ, pos, negsuc, ◌≤ℤ◌, Str, str, str_beq, str_eq,
  contains, trim_space, lookup, Result, ok, ok_injective,
}

abbrev plain_tls : RedisTls
plain_tls = record {
  enabled = false;
  server_name = [];
  insecure_skip_verify = false;
  ca = [];
  ca_file = [];
  cert = [];
  cert_file = [];
  private_key = [];
  private_key_file = [];
}

abbrev cache_instance : RedisInstance
cache_instance = record {
  name = str "cache";
  description = [];
  labels = [];
  connection = record {
    host = str "r";
    port = pos 0;
    username = [];
    password = [];
    tls = plain_tls;
  };
  readonly = false;
  limit = pos 100;
}

abbrev manager : Manager
manager = record {
  app = record {
    server = record { host = []; port = pos 0; auth = record { token = [] } };
    plugins = record { dir = [] };
    config = record {
      hosts = [];
      databases = [];
      redis = [];
      kafka = [];
      apis = [];
      commands = [];
      snmp = [];
    };
    defaults = record { plugin_timeout = [] };
    log = record { level = []; encoding = [] };
  };
  resources = record no_resources { redis = (str "cache", cache_instance) ∷ [] };
  log = none;
  command_warnings = [];
}

-- Files that hold one byte, a pool that is always read, and keys that match every certificate.
abbrev any_crypto : Crypto
any_crypto = record {
  read_file = λ p. ok p;
  base64 = λ s. ok s;
  parses_ca = λ s. true;
  check_pair = λ c k. ok tt;
}

abbrev letters : List Str
letters = str "a" ∷ str "b" ∷ str "c" ∷ []

-- A server with a list, and with three keys that it returns in one batch before an empty one.
abbrev server : Client
server = record {
  ping = value (str "PONG");
  info = λ s. value [];
  role = value null;
  db_size = value (pos 3);
  type_of = λ k. value (str "list");
  ttl = λ k. value (negsuc 0);
  exists = λ k. value (pos 1);
  get = λ k. nil_reply;
  memory_usage = λ k. nil_reply;
  object_encoding = λ k. nil_reply;
  slow_log_get = λ n. value [];
  client_list = value [];
  config_get = λ p. value [];
  hlen = λ k. value (pos 0);
  llen = λ k. value (pos 3);
  scard = λ k. value (pos 0);
  zcard = λ k. value (pos 0);
  zrange_with_scores = λ k start stop. value [];
  lrange = λ k start stop. value (slice letters start stop);
  hget = λ k f. nil_reply;
  hmget = λ k fs. value [];
  scan = λ calls cursor pattern count. if calls == 0 then value (letters, 7) else value ([], 0);
  hscan = λ k calls cursor pattern count. value ([], 0);
}

abbrev redis : Redis
redis = record { cfg = manager; crypto = any_crypto; connect = λ opts. ok server }

-- The names that the tests compute with.
opened : Unit {0}
unfolding find get_redis lookup_instance options_of open_client tls_of dial build_redis_tls_config
    redis_tls_on root_cas key_pair resolve_material decode_content clamp_limit collect scan_loop
    scan_ready scan EndsWithin redis_has_ca lrange_open str_beq trim_space lookup contains
opened = tt

abbrev all_keys : ScanRequest
all_keys = record { redis = str "cache"; db = pos 0; cursor = 0; pattern = []; limit = pos 10 }

abbrev two_keys : ScanRequest
two_keys = record all_keys { limit = pos 2 }

abbrev whole_result : ScanResult
whole_result = scan_result (0, letters, false)

scan_all : scan redis 5 all_keys ≡ some (ok whole_result)
unfolding opened
scan_all = refl

scan_bound_example :
    (r : RedisInstance) × (limit : ℤ) × (lookup_instance redis (str "cache") ≡ ok r)
    × (clamp_limit (pos 10) r.limit ≡ ok limit)
    × (pos 3 ≡ pos (length letters))
    × (pos 3 ≤ℤ limit)
    × (limit ≤ℤ pos 10)
scan_bound_example = scan_bound redis all_keys 5 whole_result scan_all

scan_whole_example :
    (client : Client) × (limit : ℤ) × (dial redis (str "cache") (pos 0) ≡ ok client)
    × (whole_result.cursor ≡ 0)
    × Fetched (scan_call client all_keys limit) 0 0 letters
scan_whole_example = scan_whole redis all_keys 5 whole_result scan_all refl

ready : scan_ready redis all_keys ≡ ok (server, pos 10)
unfolding opened
ready = refl

value_injective : {p q : List Str × ℕ} → value p ≡ value q → p ≡ q
value_injective h = cc

ending :
    (client : Client) (limit : ℤ)
    → scan_ready redis all_keys ≡ ok (client, limit)
    → EndsWithin (scan_call client all_keys limit) 2 0 0
unfolding opened
ending client limit h =
    subst (λ p. EndsWithin (scan_call p.0 all_keys p.1) 2 0 0) (ok_injective (sym ready ∙ h))
      (λ b0 n0 h0. inr (λ b1 n1 h1. inl (sym (ap (λ p. p.1) (value_injective h1)))))

scan_total_example : (r : Result AppError ScanResult) × (scan redis 5 all_keys ≡ some r)
scan_total_example = scan_total redis all_keys 2 5 ending (omega arith)

ready_two : scan_ready redis two_keys ≡ ok (server, pos 2)
unfolding opened
ready_two = refl

scan_cut_example : scan redis 5 two_keys ≡ some (ok (scan_result (7, take 2 letters, true)))
scan_cut_example = scan_cut redis two_keys 4 2 7 server letters ready_two refl (omega arith)

abbrev from_second : LrangeRequest
from_second = record {
  redis = str "cache";
  db = pos 0;
  key = str "l";
  start = pos 1;
  limit = pos 1;
}

abbrev from_last : LrangeRequest
from_last = record from_second { start = negsuc 0; limit = pos 2 }

lrange_open_example :
    lrange_open server from_second (pos 1)
    ≡ ok (lrange_result from_second (take 1 (drop 1 letters), true))
lrange_open_example =
    lrange_open_lem server from_second letters 1 1 (λ start stop. refl) refl (omega arith)

lrange_open_negative_example :
    lrange_open server from_last (pos 2) ≡ ok (lrange_result from_last ([], false))
lrange_open_negative_example =
    lrange_open_negative server from_last letters 0 2 (λ start stop. refl) refl (omega arith)
      (omega arith) (omega arith)

abbrev mutual_tls : RedisTls
mutual_tls = record plain_tls {
  enabled = true;
  ca_file = str "ca.pem";
  cert_file = str "c.pem";
  private_key_file = str "k.pem";
}

abbrev mutual_config : TlsConfig
mutual_config = record {
  insecure_skip_verify = false;
  server_name = str "r";
  root_cas = some (str "ca.pem");
  certificate = some (str "c.pem", str "k.pem");
}

mutual_built : build_redis_tls_config any_crypto (str "r") mutual_tls ≡ ok (some mutual_config)
unfolding opened
mutual_built = refl

build_redis_tls_config_example : (true ≡ true) × Keeps any_crypto (str "r") mutual_tls mutual_config
build_redis_tls_config_example =
    build_redis_tls_config_lem any_crypto (str "r") mutual_tls mutual_config mutual_built

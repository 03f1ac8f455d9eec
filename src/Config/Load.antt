-- ===== src/Config/Load.antt =====
-- loadHosts, loadDatabases, loadKafka and loadRedis of config/config.go: one step per entry of the
-- decoded file, with the defaults that an entry leaves out.
use ops_mcp.Config.Errors.{
  Resource, ConfigError, read_failed, parse_failed, missing_name, duplicate_name, missing_brokers,
  FileRead, missing, unreadable, malformed, decoded,
}
use ops_mcp.Model.Host.{Host}
use ops_mcp.Model.Database.{Database}
use ops_mcp.Model.Redis.{RedisInstance}
use ops_mcp.Model.Kafka.{KafkaInstance}
use ops_mcp.Prelude.{
  zero, suc, List, [], if◌then◌else◌, nat_eq, ◌==◌, is_nil, ℤ, pos, negsuc, is_nonpos, Str, str,
  str_eq, is_empty, Dict, has, insert, Result, ok, err, refuse, ◌>>◌, for_each,
}

abbrev pub default_query_limit : ℤ
default_query_limit = pos 1000

-- The value of a field that is 0, or 0 or less, is replaced.
abbrev pub or_default_port : ℤ → ℤ → ℤ
or_default_port default (pos zero) = default
or_default_port default (pos (suc n)) = pos (suc n)
or_default_port default (negsuc n) = negsuc n

abbrev pub or_default_limit : ℤ → ℤ
or_default_limit limit = if is_nonpos limit then default_query_limit else limit

unfoldable pub with_host_port : Host → Host
with_host_port h = record h {
  address = record h.address { port = or_default_port (pos 22) h.address.port };
}

unfoldable pub add_host : Host → Dict Host → Result ConfigError (Dict Host)
add_host h out = do
  refuse (is_empty h.name) (missing_name Resource.hosts)
  refuse (has h.name out) (duplicate_name Resource.hosts h.name)
  ok (insert h.name (with_host_port h) out)

unfoldable pub load_hosts : (Str → FileRead (List Host)) → Str → Result ConfigError (Dict Host)
load_hosts read path = elim (read path) [
  | missing ↦ err (read_failed Resource.hosts path)
  | unreadable ↦ err (read_failed Resource.hosts path)
  | malformed ↦ err (parse_failed Resource.hosts path)
  | decoded hs ↦ for_each add_host hs []
]

-- Every other file may be missing: there are then no entries.
abbrev pub load_optional {ℓ κ} :
    {F : Type ℓ} {M : Type κ}
    → Resource
    → Str
    → M
    → (F → Result ConfigError M)
    → FileRead F
    → Result ConfigError M
load_optional what path absent load missing = ok absent
load_optional what path absent load unreadable = err (read_failed what path)
load_optional what path absent load malformed = err (parse_failed what path)
load_optional what path absent load (decoded file) = load file

unfoldable pub default_db_port : Str → ℤ
default_db_port db_type =
    if db_type == str "mysql"
    then pos 3306
    else if db_type == str "postgresql"
    then pos 5432
    else pos 0

unfoldable pub with_db_defaults : Database → Database
unfolding default_db_port
with_db_defaults db = record db {
  limit = or_default_limit db.limit;
  connection = record db.connection {
    port = or_default_port (default_db_port db.db_type) db.connection.port;
  };
}

unfoldable pub add_database : Database → Dict Database → Result ConfigError (Dict Database)
add_database db out = do
  refuse (is_empty db.name) (missing_name Resource.databases)
  refuse (has db.name out) (duplicate_name Resource.databases db.name)
  ok (insert db.name (with_db_defaults db) out)

unfoldable pub load_databases :
    (Str → FileRead (List Database)) → Str → Result ConfigError (Dict Database)
load_databases read path =
    load_optional Resource.databases path [] (λ dbs. for_each add_database dbs []) (read path)

unfoldable pub with_kafka_limit : KafkaInstance → KafkaInstance
with_kafka_limit k = record k { limit = or_default_limit k.limit }

unfoldable pub add_kafka :
    KafkaInstance → Dict KafkaInstance → Result ConfigError (Dict KafkaInstance)
add_kafka k out = do
  refuse (is_empty k.name) (missing_name Resource.kafka)
  refuse (has k.name out) (duplicate_name Resource.kafka k.name)
  refuse (is_nil k.connection.brokers) (missing_brokers k.name)
  ok (insert k.name (with_kafka_limit k) out)

unfoldable pub load_kafka :
    (Str → FileRead (List KafkaInstance)) → Str → Result ConfigError (Dict KafkaInstance)
load_kafka read path =
    load_optional Resource.kafka path [] (λ ks. for_each add_kafka ks []) (read path)

unfoldable pub with_redis_defaults : RedisInstance → RedisInstance
with_redis_defaults r = record r {
  limit = or_default_limit r.limit;
  connection = record r.connection { port = or_default_port (pos 6379) r.connection.port };
}

unfoldable pub add_redis :
    RedisInstance → Dict RedisInstance → Result ConfigError (Dict RedisInstance)
add_redis r out = do
  refuse (is_empty r.name) (missing_name Resource.redis)
  refuse (has r.name out) (duplicate_name Resource.redis r.name)
  ok (insert r.name (with_redis_defaults r) out)

unfoldable pub load_redis :
    (Str → FileRead (List RedisInstance)) → Str → Result ConfigError (Dict RedisInstance)
load_redis read path =
    load_optional Resource.redis path [] (λ rs. for_each add_redis rs []) (read path)

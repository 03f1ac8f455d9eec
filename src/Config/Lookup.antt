-- ===== src/Config/Lookup.antt =====
-- The lookups and lists of the Manager of config/config.go.
pub mod Summaries
pub mod Paging
pub mod Auth
use ops_mcp.Config.Errors.{Resource}
use ops_mcp.Config.Manager.{Manager}
use ops_mcp.Model.Host.{Host, HostSummary, host_summary}
use ops_mcp.Model.Database.{Database, DatabaseSummary, database_summary}
use ops_mcp.Model.Redis.{RedisInstance, RedisSummary, redis_summary}
use ops_mcp.Model.Kafka.{KafkaInstance, KafkaSummary, kafka_summary}
use ops_mcp.Model.Snmp.{
  SnmpAuth, SnmpCredential, SnmpDevice, SnmpDeviceSummary, SnmpDefaults, device_summary,
}
use ops_mcp.Model.Command.{Command, CommandSummary, command_summary}
use ops_mcp.Model.Api.{ApiService, ApiSummary, api_summary}
use ops_mcp.Prelude.Sorting.{sort_by}
use ops_mcp.Prelude.{
  ◌-◌, Bool, ◌&&◌, Option, none, some, List, [], ◌∷◌, map, if◌then◌else◌, nat_eq, ◌==◌, length,
  take, drop, all, keep, ℤ, pos, pos_part, leb_ℤ, ltb_ℤ, is_nonpos, add64, Str, str_eq, Dict,
  lookup, values, Result, ok, err, ◌>>=◌,
}

pub data LookupError : Type 0 where
  not_found : Resource → Str → LookupError
  no_credential_or_auth : Str → LookupError

abbrev pub or_not_found {ℓ} : {V : Type ℓ} → Resource → Str → Option V → Result LookupError V
or_not_found what name none = err (not_found what name)
or_not_found what name (some v) = ok v

unfoldable pub find {ℓ} : {V : Type ℓ} → Resource → Str → Dict V → Result LookupError V
find what name m = or_not_found what name (lookup name m)

unfoldable pub get_host : Manager → Str → Result LookupError Host
get_host m name = find Resource.hosts name m.resources.hosts

unfoldable pub get_database : Manager → Str → Result LookupError Database
get_database m name = find Resource.databases name m.resources.databases

unfoldable pub get_redis : Manager → Str → Result LookupError RedisInstance
get_redis m name = find Resource.redis name m.resources.redis

unfoldable pub get_kafka : Manager → Str → Result LookupError KafkaInstance
get_kafka m name = find Resource.kafka name m.resources.kafka

unfoldable pub get_api : Manager → Str → Result LookupError ApiService
get_api m name = find Resource.apis name m.resources.apis

unfoldable pub get_command : Manager → Str → Result LookupError Command
get_command m name = find Resource.commands name m.resources.commands

unfoldable pub get_snmp_device : Manager → Str → Result LookupError SnmpDevice
get_snmp_device m name = find Resource.snmp_devices name m.resources.snmp_devices

unfoldable pub get_snmp_credential : Manager → Str → Result LookupError SnmpCredential
get_snmp_credential m name = find Resource.snmp_credentials name m.resources.snmp_creds

-- The credential that a device names, or else its own entry.
unfoldable pub auth_of :
    Dict SnmpCredential → Str → Str → Option SnmpAuth → Result LookupError SnmpAuth
auth_of creds device_name (b ∷ s) auth =
    find Resource.snmp_credentials (b ∷ s) creds >>= λ c. ok c.auth
auth_of creds device_name [] (some auth) = ok auth
auth_of creds device_name [] none = err (no_credential_or_auth device_name)

unfoldable pub resolve_snmp_auth : Manager → Str → Result LookupError SnmpAuth
resolve_snmp_auth m device_name =
    find Resource.snmp_devices device_name m.resources.snmp_devices >>= λ d.
    auth_of m.resources.snmp_creds device_name d.credential d.auth

-- `have[k]` of a missing key is the empty text.
abbrev pub value_or_empty : Option Str → Str
value_or_empty none = []
value_or_empty (some v) = v

unfoldable pub labels_match : Dict Str → Dict Str → Bool
labels_match labels want = all (λ b. value_or_empty (lookup b.0 labels) == b.1) want

pub record SnmpDeviceListOptions : Type 0 where
  pub labels : Dict Str
  pub limit : ℤ
  pub offset : ℤ

abbrev pub default_snmp_list_limit : ℤ
default_snmp_list_limit = pos 100

-- out[low:high], which panics (`none`) unless 0 <= low <= high <= len(out).
unfoldable pub slice : {A : Type 0} → ℤ → ℤ → List A → Option (List A)
slice low high out =
    if leb_ℤ (pos 0) low && leb_ℤ low high && leb_ℤ high (pos (length out))
    then some (take (pos_part high - pos_part low) (drop (pos_part low) out))
    else none

-- The page of the sorted summaries; `offset + limit` is a sum of 64-bit integers.
unfoldable pub page : {A : Type 0} → ℤ → ℤ → List A → Option (List A)
page asked_limit asked_offset out =
    let size = pos (length out) in
    let limit = if is_nonpos asked_limit then default_snmp_list_limit else asked_limit in
    let offset = if ltb_ℤ asked_offset (pos 0) then pos 0 else asked_offset in
    if leb_ℤ size offset
    then some []
    else let sum = add64 offset limit in slice offset (if ltb_ℤ size sum then size else sum) out

unfoldable pub matching_devices : Manager → Dict Str → List SnmpDeviceSummary
matching_devices m labels =
    sort_by (λ s. s.name)
      (map device_summary
        (keep (λ d. labels_match d.labels labels) (values m.resources.snmp_devices)))

unfoldable pub list_snmp_device_summaries :
    Manager → SnmpDeviceListOptions → Option (List SnmpDeviceSummary)
list_snmp_device_summaries m opts = page opts.limit opts.offset (matching_devices m opts.labels)

unfoldable pub list_apis : Manager → List ApiService
list_apis m = sort_by (λ a. a.name) (values m.resources.apis)

unfoldable pub list_host_summaries : Manager → List HostSummary
list_host_summaries m = sort_by (λ s. s.name) (map host_summary (values m.resources.hosts))

unfoldable pub list_database_summaries : Manager → List DatabaseSummary
list_database_summaries m =
    sort_by (λ s. s.name) (map database_summary (values m.resources.databases))

unfoldable pub list_redis_summaries : Manager → List RedisSummary
list_redis_summaries m = sort_by (λ s. s.name) (map redis_summary (values m.resources.redis))

unfoldable pub list_kafka_summaries : Manager → List KafkaSummary
list_kafka_summaries m = sort_by (λ s. s.name) (map kafka_summary (values m.resources.kafka))

unfoldable pub list_api_summaries : Manager → List ApiSummary
list_api_summaries m = sort_by (λ s. s.name) (map api_summary (values m.resources.apis))

unfoldable pub list_command_summaries : Manager → List CommandSummary
list_command_summaries m = sort_by (λ s. s.name) (map command_summary (values m.resources.commands))

-- DefaultPluginTimeout, with 30 seconds in nanoseconds for what is no positive duration.
unfoldable pub default_plugin_timeout : (Str → Option ℤ) → Manager → ℤ
default_plugin_timeout parse_duration m = elim (parse_duration m.app.defaults.plugin_timeout) [
  | none ↦ pos 30000000000
  | some d ↦ if is_nonpos d then pos 30000000000 else d
]

unfoldable pub auth_token : Manager → Str
auth_token m = m.app.server.auth.token

unfoldable pub snmp_defaults : Manager → SnmpDefaults
snmp_defaults m = m.resources.snmp_defaults

-- ===== src/Connector/Kafka/Settings.antt =====
-- brokerConfig of connector/kafka/actions.go.
pub mod Redacted
use ops_mcp.Connector.Kafka.Admin.{Admin, BrokerConfigs, ConfigEntry}
use ops_mcp.Connector.Kafka.Params.{Numbers, param_int, param_string}
use ops_mcp.Connector.Kafka.Topics.{or_conn_err}
use ops_mcp.Model.Errors.{AppError}
use ops_mcp.Prelude.Value.{Value}
use ops_mcp.Prelude.Sorting.{sort_by}
use ops_mcp.Prelude.{
  Str, List, if◌then◌else◌, ℤ, Option, Dict, Bool, ℕ, str, map, length, ltb_ℤ, some, Result,
  is_empty, keep, pos, none, ◌>>=◌, ◌||◌, ◌^◌, ok, has_prefix, ◌-◌, neg_part, ◌%◌, pos_part, ltb,
  sub_ℕ,
}

pub record ConfigItem : Type 0 where
  pub name : Str
  pub value : Str
  pub sensitive : Bool
  pub source : ℤ

pub record BrokerItem : Type 0 where
  pub broker : Str
  pub configs : List ConfigItem
  pub count : ℕ
  pub error : Option Str

pub record BrokerConfigResult : Type 0 where
  pub brokers : List BrokerItem
  pub count : ℕ

abbrev pub config_item : ConfigEntry → ConfigItem
config_item c = record {
  name = c.key;
  value = if c.sensitive then str "[REDACTED]" else c.value;
  sensitive = c.sensitive;
  source = c.source;
}

abbrev pub has_key_prefix : Str → ConfigEntry → Bool
has_key_prefix prefix c = is_empty prefix || has_prefix c.key prefix

unfoldable pub config_items : Str → List ConfigEntry → List ConfigItem
config_items prefix entries =
    sort_by (λ i. i.name) (map config_item (keep (has_key_prefix prefix) entries))

unfoldable pub broker_item : Str → BrokerConfigs → BrokerItem
unfolding config_items
broker_item prefix rc = record {
  broker = rc.broker;
  configs = config_items prefix rc.entries;
  count = length (config_items prefix rc.entries);
  error = rc.error;
}

abbrev pub settings_of : Str → List BrokerConfigs → BrokerConfigResult
settings_of prefix configs = record {
  brokers = map (broker_item prefix) configs;
  count = length (map (broker_item prefix) configs);
}

-- The conversion to int32.
unfoldable pub to_int32 : ℤ → ℤ
to_int32 z =
    let low =
      if ltb_ℤ z (pos 0) then (2 ^ 32 - neg_part z % 2 ^ 32) % 2 ^ 32 else pos_part z % 2 ^ 32 in
    if ltb low (2 ^ 31) then pos low else sub_ℕ low (2 ^ 32)

abbrev pub broker_number : Option ℤ → Option ℤ
broker_number none = none
broker_number (some n) = some (to_int32 n)

module _ (numbers : Numbers) where
  unfoldable pub broker_config : Admin → Dict Value → Result AppError BrokerConfigResult
  unfolding broker_item to_int32
  broker_config adm params = do
    broker_id ← param_int numbers params (str "broker_id")
    let prefix = param_string numbers params (str "prefix")
    configs ← or_conn_err (str "broker_config") (adm.broker_configs (broker_number broker_id))
    ok (settings_of prefix configs)

-- ===== src/Connector/Kafka/Settings/Redacted.antt =====
-- What brokerConfig shows of a sensitive setting.
use ops_mcp.Connector.Kafka.Admin.{Admin, BrokerConfigs, ConfigEntry}
use ops_mcp.Connector.Kafka.Params.{Numbers, param_int, param_string}
use ops_mcp.Connector.Kafka.Settings.{
  settings_of, broker_config, broker_item, broker_number, config_item, has_key_prefix, sort_by,
}
use ops_mcp.Connector.Kafka.Topics.{or_conn_err}
use ops_mcp.Prelude.Value.{Value}
use ops_mcp.Prelude.Sorting.{sort_by}
use ops_mcp.Prelude.{
  Str, map, Result, ◌≡◌, keep, List, Dict, if◌then◌else◌, ok, Bool-cases, ◌∷◌, str, err, inl,
  length, ◌>>=◌, [], inr, refl,
}

-- The cluster's answers with other values of the sensitive settings.
module _ (secret : ConfigEntry → Str) where
  abbrev pub with_secret : ConfigEntry → ConfigEntry
  with_secret c = record c { value = if c.sensitive then secret c else c.value }

  abbrev pub broker_secrets : BrokerConfigs → BrokerConfigs
  broker_secrets rc = record rc { entries = map with_secret rc.entries }

  abbrev pub answer_secrets : Result Str (List BrokerConfigs) → Result Str (List BrokerConfigs)
  answer_secrets (ok configs) = ok (map broker_secrets configs)
  answer_secrets (err e) = err e

  abbrev pub with_secrets : Admin → Admin
  with_secrets adm = record adm { broker_configs = λ b. answer_secrets (adm.broker_configs b) }

  config_item-with_secret : (c : ConfigEntry) → config_item (with_secret c) ≡ config_item c
  config_item-with_secret c = elim (Bool-cases c.sensitive) [
    | inl s ↦ rw s refl
    | inr s ↦ rw s refl
  ]

  kept-with_secret :
      (prefix : Str) (entries : List ConfigEntry)
      → map config_item (keep (has_key_prefix prefix) (map with_secret entries))
        ≡ map config_item (keep (has_key_prefix prefix) entries)
  unfolding keep
  kept-with_secret prefix [] = refl
  kept-with_secret prefix (c ∷ cs) = elim (Bool-cases (has_key_prefix prefix c)) [
    | inl h ↦ rw h (λ i. config_item-with_secret c i ∷ kept-with_secret prefix cs i)
    | inr h ↦ rw h (kept-with_secret prefix cs)
  ]

  broker_item-broker_secrets :
      (prefix : Str) (rc : BrokerConfigs)
      → broker_item prefix (broker_secrets rc) ≡ broker_item prefix rc
  unfolding broker_item
  broker_item-broker_secrets prefix rc = λ i. record {
    broker = rc.broker;
    configs = sort_by (λ c. c.name) (kept-with_secret prefix rc.entries i);
    count = length (sort_by (λ c. c.name) (kept-with_secret prefix rc.entries i));
    error = rc.error;
  }

  brokers-with_secrets :
      (prefix : Str) (configs : List BrokerConfigs)
      → map (broker_item prefix) (map broker_secrets configs) ≡ map (broker_item prefix) configs
  brokers-with_secrets prefix [] = refl
  brokers-with_secrets prefix (rc ∷ rcs) =
      λ i. broker_item-broker_secrets prefix rc i ∷ brokers-with_secrets prefix rcs i

  answer-with_secrets :
      (prefix : Str) (out : Result Str (List BrokerConfigs))
      → (or_conn_err (str "broker_config") (answer_secrets out) >>= λ configs.
          ok (settings_of prefix configs))
        ≡ (or_conn_err (str "broker_config") out >>= λ configs. ok (settings_of prefix configs))
  answer-with_secrets prefix (err e) = refl
  answer-with_secrets prefix (ok configs) = λ i. ok (record {
    brokers = brokers-with_secrets prefix configs i;
    count = length (brokers-with_secrets prefix configs i);
  })

  pub broker_config-with_secrets :
      (numbers : Numbers) (adm : Admin) (params : Dict Value)
      → broker_config numbers (with_secrets adm) params ≡ broker_config numbers adm params
  unfolding broker_config
  broker_config-with_secrets numbers adm params = λ i.
      param_int numbers params (str "broker_id") >>= λ broker_id.
      answer-with_secrets (param_string numbers params (str "prefix"))
        (adm.broker_configs (broker_number broker_id)) i

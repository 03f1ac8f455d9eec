-- ===== src/Connector/Kafka/Execute/Secret.antt =====
-- No action shows the value of a sensitive setting.
use ops_mcp.Connector.Kafka.Admin.{Admin, ConfigEntry}
use ops_mcp.Connector.Kafka.Client.{Kafka, client_opts, connected, dial, lookup_instance}
use ops_mcp.Connector.Kafka.Execute.{
  Action, as_result, act_broker_config, check_call, dispatch, execute_kafka, settings_result,
  act_cluster_info, act_brokers, act_topics, act_topic_detail, act_partition_health,
  act_consumer_groups, act_consumer_lag, act_consumer_lag_summary, act_topic_offsets,
}
use ops_mcp.Connector.Kafka.Params.{Numbers}
use ops_mcp.Connector.Kafka.Topics.{cluster_info, brokers, topics, topic_detail}
use ops_mcp.Connector.Kafka.Health.{partition_health}
use ops_mcp.Connector.Kafka.Groups.{consumer_groups, consumer_lag, consumer_lag_summary}
use ops_mcp.Connector.Kafka.Offsets.{topic_offsets}
use ops_mcp.Connector.Kafka.Settings.Redacted.{broker_config-with_secrets, with_secrets}
use ops_mcp.Model.Kafka.{KafkaInstance}
use ops_mcp.Prelude.Value.{Value}
use ops_mcp.Prelude.{Str, Result, Dict, ok, ◌≡◌, ◌>>=◌, err, ap, refl, Result-cases, inl, inr}

module _ (secret : ConfigEntry → Str) (numbers : Numbers) (k : Kafka) where
  abbrev pub admin_secrets : Result Str Admin → Result Str Admin
  admin_secrets (ok adm) = ok (with_secrets secret adm)
  admin_secrets (err e) = err e

  -- The clusters that the library connects to, with other values of their sensitive settings.
  abbrev pub clusters_secrets : Kafka
  clusters_secrets = record k { connect = λ opts. admin_secrets (k.connect opts) }

  dispatch-with_secrets :
      (act : Action) (params : Dict Value) (adm : Admin) (inst : KafkaInstance)
      → dispatch numbers act params (with_secrets secret adm, inst)
        ≡ dispatch numbers act params (adm, inst)
  unfolding dispatch cluster_info brokers topics topic_detail partition_health consumer_groups
      consumer_lag consumer_lag_summary topic_offsets
  dispatch-with_secrets act_broker_config params adm inst =
      ap (as_result settings_result) (broker_config-with_secrets secret numbers adm params)
  dispatch-with_secrets act_cluster_info params adm inst = refl
  dispatch-with_secrets act_brokers params adm inst = refl
  dispatch-with_secrets act_topics params adm inst = refl
  dispatch-with_secrets act_topic_detail params adm inst = refl
  dispatch-with_secrets act_partition_health params adm inst = refl
  dispatch-with_secrets act_consumer_groups params adm inst = refl
  dispatch-with_secrets act_consumer_lag params adm inst = refl
  dispatch-with_secrets act_consumer_lag_summary params adm inst = refl
  dispatch-with_secrets act_topic_offsets params adm inst = refl

  connected-with_secrets :
      (name : Str) (out : Result Str Admin) (act : Action) (params : Dict Value)
      (inst : KafkaInstance)
      → ((connected clusters_secrets name (admin_secrets out) >>= λ adm. ok (adm, inst))
          >>= dispatch numbers act params)
        ≡ ((connected k name out >>= λ adm. ok (adm, inst)) >>= dispatch numbers act params)
  connected-with_secrets name (err e) act params inst = refl
  connected-with_secrets name (ok adm) act params inst = dispatch-with_secrets act params adm inst

  opened-with_secrets :
      (name : Str) (act : Action) (params : Dict Value)
      → (dial clusters_secrets name >>= dispatch numbers act params)
        ≡ (dial k name >>= dispatch numbers act params)
  unfolding dial lookup_instance client_opts
  opened-with_secrets name act params = elim (Result-cases (lookup_instance k name)) [
    | inl (e, h) ↦ rw h refl
    | inr (inst, h) ↦ elim (Result-cases (client_opts k inst)) [
      | inl (e, h2) ↦ rw h (rw h2 refl)
      | inr (opts, h2) ↦ rw h (rw h2 (connected-with_secrets name (k.connect opts) act params inst))
    ]
  ]

  -- What a call answers does not depend on the values of the settings that a cluster marks as
  -- sensitive: with other values, which may depend on the setting, it answers the same.
  pub execute_kafka-clusters_secrets :
      (action : Str) (params : Dict Value)
      → execute_kafka numbers clusters_secrets action params ≡ execute_kafka numbers k action params
  unfolding execute_kafka check_call
  execute_kafka-clusters_secrets action params =
      λ i. check_call numbers k action params >>= λ c. opened-with_secrets c.1 c.0 params i

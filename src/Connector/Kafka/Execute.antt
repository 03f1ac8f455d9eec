-- ===== src/Connector/Kafka/Execute.antt =====
-- Execute of connector/kafka/kafka.go.
pub mod Secret
use ops_mcp.Connector.Kafka.Admin.{Admin}
use ops_mcp.Connector.Kafka.Client.{Kafka, dial}
use ops_mcp.Connector.Kafka.Groups.{
  GroupsResult, LagResult, LagSummary, consumer_groups, consumer_lag, consumer_lag_summary,
}
use ops_mcp.Connector.Kafka.Health.{Health, partition_health}
use ops_mcp.Connector.Kafka.Offsets.{OffsetsResult, topic_offsets}
use ops_mcp.Connector.Kafka.Params.{Numbers, require_string}
use ops_mcp.Connector.Kafka.Settings.{BrokerConfigResult, broker_config}
use ops_mcp.Connector.Kafka.Topics.{
  ClusterInfo, TopicResult, TopicsResult, brokers, cluster_info, topic_detail, topics,
}
use ops_mcp.Model.Errors.{AppError, invalid, not_found, refuse_invalid}
use ops_mcp.Model.Kafka.{KafkaInstance}
use ops_mcp.Prelude.Value.{Value}
use ops_mcp.Prelude.{
  Dict, lookup, Str, str, Option, Result, ◌∷◌, some, ok, ◌>>◌, trim_space, ◌>>=◌, [], err, to_lower,
  none, is_empty,
}

pub data Action : Type 0 where
  act_cluster_info act_brokers act_topics act_topic_detail act_partition_health : Action
  act_consumer_groups act_consumer_lag act_consumer_lag_summary : Action
  act_topic_offsets act_broker_config : Action

pub data KafkaResult : Type 0 where
  cluster_result : ClusterInfo → KafkaResult
  brokers_result : ClusterInfo → KafkaResult
  topics_result : TopicsResult → KafkaResult
  detail_result : TopicResult → KafkaResult
  health_result : Health → KafkaResult
  consumers_result : GroupsResult → KafkaResult
  lag_result : LagResult → KafkaResult
  summary_result : LagSummary → KafkaResult
  offset_result : OffsetsResult → KafkaResult
  settings_result : BrokerConfigResult → KafkaResult

abbrev pub actions : Dict Action
actions =
    (str "cluster_info", act_cluster_info)
    ∷ (str "brokers", act_brokers)
    ∷ (str "topics", act_topics)
    ∷ (str "topic_detail", act_topic_detail)
    ∷ (str "partition_health", act_partition_health)
    ∷ (str "consumer_groups", act_consumer_groups)
    ∷ (str "consumer_lag", act_consumer_lag)
    ∷ (str "consumer_lag_summary", act_consumer_lag_summary)
    ∷ (str "topic_offsets", act_topic_offsets)
    ∷ (str "broker_config", act_broker_config)
    ∷ []

unfoldable pub known_action : Str → Option Action
unfolding lookup
known_action name = lookup name actions

abbrev pub action_or_unknown : Str → Option Action → Result AppError Action
action_or_unknown name none = invalid (not_found (str "kafka action") name)
action_or_unknown name (some a) = ok a

abbrev pub as_result {ℓ} :
    {A : Type ℓ} → (A → KafkaResult) → Result AppError A → Result AppError KafkaResult
as_result f (ok a) = ok (f a)
as_result f (err e) = err e

module _ (numbers : Numbers) where
  -- The parameters that are checked before the client is opened.
  unfoldable pub check_required : Action → Dict Value → Result AppError (Unit {0})
  check_required act_topic_detail params =
      require_string numbers params (str "topic") >>= λ s. ok tt
  check_required act_topic_offsets params =
      require_string numbers params (str "topic") >>= λ s. ok tt
  check_required act_consumer_lag params =
      require_string numbers params (str "group") >>= λ s. ok tt
  check_required _ params = ok tt

  unfoldable pub dispatch :
      Action → Dict Value → Admin × KafkaInstance → Result AppError KafkaResult
  dispatch act_cluster_info params (adm, inst) = as_result cluster_result (cluster_info adm)
  dispatch act_brokers params (adm, inst) = as_result brokers_result (brokers adm)
  dispatch act_topics params (adm, inst) = as_result topics_result (topics numbers adm inst params)
  dispatch act_topic_detail params (adm, inst) =
      as_result detail_result (topic_detail numbers adm params)
  dispatch act_partition_health params (adm, inst) =
      as_result health_result (partition_health numbers adm params)
  dispatch act_consumer_groups params (adm, inst) =
      as_result consumers_result (consumer_groups numbers adm inst params)
  dispatch act_consumer_lag params (adm, inst) =
      as_result lag_result (consumer_lag numbers adm params)
  dispatch act_consumer_lag_summary params (adm, inst) =
      as_result summary_result (consumer_lag_summary numbers adm inst params)
  dispatch act_topic_offsets params (adm, inst) =
      as_result offset_result (topic_offsets numbers adm params)
  dispatch act_broker_config params (adm, inst) =
      as_result settings_result (broker_config numbers adm params)

module _ (numbers : Numbers) (k : Kafka) where
  -- Up to the client: the action and the name of the instance.
  unfoldable pub check_call : Str → Dict Value → Result AppError (Action × Str)
  unfolding known_action check_required
  check_call action params = do
    let name = trim_space (to_lower k.unicode_lower action)
    refuse_invalid (is_empty name) (str "kafka: action is required")
    act ← action_or_unknown name (known_action name)
    instance_name ← require_string numbers params (str "kafka")
    check_required numbers act params
    ok (act, instance_name)

  unfoldable pub execute_kafka : Str → Dict Value → Result AppError KafkaResult
  unfolding check_call dispatch dial
  execute_kafka action params = do
    (act, instance_name) ← check_call action params
    opened ← dial k instance_name
    dispatch numbers act params opened

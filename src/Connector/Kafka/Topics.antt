-- ===== src/Connector/Kafka/Topics.antt =====
-- Brokers, topics and partition health of connector/kafka/actions.go.
use ops_mcp.Connector.Kafka.Admin.{Admin, Broker, Partition, TopicDetail}
use ops_mcp.Connector.Kafka.Params.{
  Numbers, apply_limit, or_zero, param_bool, param_int, param_string, require_string,
}
use ops_mcp.Model.Errors.{AppError, caused, connector_failed, not_found}
use ops_mcp.Model.Kafka.{KafkaInstance}
use ops_mcp.Prelude.Value.{Value}
use ops_mcp.Prelude.Sorting.{sort_by}
use ops_mcp.Prelude.{
  Str, Option, List, ℕ, Dict, Result, [], ℤ, Bool, length, ok, some, keep, map, ltb, not,
  if◌then◌else◌, ◌∷◌, str, ◌>>=◌, err, ◌||◌, take, ◌&&◌, is_nil, ◌+◌, lookup, none, ◌++◌, is_empty,
  ltb_ℤ, has_prefix, pos,
}

-- connErr
abbrev pub or_conn_err {ℓ} : {A : Type ℓ} → Str → Result Str A → Result AppError A
or_conn_err action (ok a) = ok a
or_conn_err action (err e) = connector_failed (caused (str "kafka " ++ action) e)

abbrev pub error_text : Option Str → Str
error_text none = []
error_text (some e) = e

pub record ClusterInfo : Type 0 where
  pub cluster_id : Str
  pub controller_id : ℤ
  pub broker_count : ℕ
  pub brokers : List Broker

-- A broker is returned with the four fields of its record.
unfoldable pub cluster_info : Admin → Result AppError ClusterInfo
cluster_info adm = do
  meta ← or_conn_err (str "cluster_info") adm.broker_metadata
  ok (record {
    cluster_id = meta.cluster;
    controller_id = meta.controller;
    broker_count = length meta.brokers;
    brokers = meta.brokers;
  })

unfoldable pub brokers : Admin → Result AppError ClusterInfo
brokers adm = do
  meta ← or_conn_err (str "brokers") adm.broker_metadata
  ok (record {
    cluster_id = meta.cluster;
    controller_id = meta.controller;
    broker_count = length meta.brokers;
    brokers = meta.brokers;
  })

pub record TopicItem : Type 0 where
  pub topic : Str
  pub partitions : ℕ
  pub is_internal : Bool
  pub replication_factor : ℤ

pub record TopicsResult : Type 0 where
  pub topics : List TopicItem
  pub count : ℕ
  pub total : ℕ
  pub truncated : Bool

unfoldable pub filtered_topics : Bool → Str → Dict TopicDetail → Dict TopicDetail
filtered_topics include_internal prefix details =
    keep
      (λ b. (include_internal || not b.1.is_internal) && (is_empty prefix || has_prefix b.0 prefix))
      details

abbrev pub topic_item : Str × TopicDetail → TopicItem
topic_item (name, d) = record {
  topic = name;
  partitions = length d.partitions;
  is_internal = d.is_internal;
  replication_factor = d.num_replicas;
}

abbrev pub first_topics : ℕ × Bool → Dict TopicDetail → TopicsResult
first_topics (limit, truncated) filtered = record {
  topics = map topic_item (take limit filtered);
  count = length (take limit filtered);
  total = length filtered;
  truncated = truncated;
}

pub record TopicPartition : Type 0 where
  pub of_topic : Partition
  pub under_replicated : Bool
  pub error_message : Str

pub record TopicResult : Type 0 where
  pub topic : Str
  pub topic_id : Str
  pub is_internal : Bool
  pub partition_count : ℕ
  pub replication_factor : ℤ
  pub under_replicated_count : ℕ
  pub offline_partition_count : ℕ
  pub partitions : List TopicPartition

abbrev pub is_under_replicated : Partition → Bool
is_under_replicated p = ltb 0 (length p.replicas) && ltb (length p.isr) (length p.replicas)

abbrev pub is_offline : Partition → Bool
is_offline p = not (is_nil p.offline_replicas) || ltb_ℤ p.leader (pos 0)

-- A counter that goes up where the test holds.
abbrev pub one_if : Bool → ℕ
one_if b = if b then 1 else 0

unfoldable pub count_if : (Partition → Bool) → List Partition → ℕ
count_if test [] = 0
count_if test (p ∷ ps) = one_if (test p) + count_if test ps

abbrev pub topic_partition : Partition → TopicPartition
topic_partition p = record {
  of_topic = p;
  under_replicated = is_under_replicated p;
  error_message = error_text p.error;
}

abbrev pub topic_result : Str → TopicDetail → TopicResult
topic_result topic d = record {
  topic = topic;
  topic_id = d.id;
  is_internal = d.is_internal;
  partition_count = length d.partitions;
  replication_factor = d.num_replicas;
  under_replicated_count = count_if is_under_replicated d.partitions;
  offline_partition_count = count_if is_offline d.partitions;
  partitions = map topic_partition d.partitions;
}

abbrev pub readable : Str → Option TopicDetail → Result AppError TopicResult
readable topic none = connector_failed (not_found (str "kafka topic") topic)
readable topic (some d) = elim d.error [
  | none ↦ ok (topic_result topic d)
  | some e ↦ connector_failed (caused topic e)
]

module _ (numbers : Numbers) where
  unfoldable pub topics : Admin → KafkaInstance → Dict Value → Result AppError TopicsResult
  unfolding filtered_topics apply_limit
  topics adm inst params = do
    asked ← param_int numbers params (str "limit")
    details ← or_conn_err (str "topics") adm.list_topics
    let filtered =
        filtered_topics (param_bool params (str "include_internal"))
          (param_string numbers params (str "prefix")) (sort_by (λ b. b.0) details)
    ok (first_topics (apply_limit (length filtered) inst.limit (or_zero asked)) filtered)

  unfoldable pub topic_detail : Admin → Dict Value → Result AppError TopicResult
  unfolding count_if
  topic_detail adm params = do
    topic ← require_string numbers params (str "topic")
    meta ← or_conn_err (str "topic_detail") (adm.metadata (some topic))
    readable topic (lookup topic meta)

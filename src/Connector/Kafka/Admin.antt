-- ===== src/Connector/Kafka/Admin.antt =====
-- What the Kafka connector uses of the admin client, a third-party library.
use ops_mcp.Prelude.{Bool, Option, List, ℤ, Str, Dict, Result, ℕ}

pub record Broker : Type 0 where
  pub node_id : ℤ
  pub host : Str
  pub port : ℤ
  pub rack : Option Str

pub record Cluster : Type 0 where
  pub cluster : Str
  pub controller : ℤ
  pub brokers : List Broker

pub record Partition : Type 0 where
  pub partition : ℤ
  pub leader : ℤ
  pub leader_epoch : ℤ
  pub replicas : List ℤ
  pub isr : List ℤ
  pub offline_replicas : List ℤ
  pub error : Option Str

-- A topic with its partitions in the order of Sorted, and NumReplicas.
pub record TopicDetail : Type 0 where
  pub topic : Str
  pub id : Str
  pub is_internal : Bool
  pub error : Option Str
  pub num_replicas : ℤ
  pub partitions : List Partition

pub record Group : Type 0 where
  pub state : Str
  pub protocol_type : Str
  pub protocol : Str
  pub member_count : ℕ
  pub coordinator : ℤ
  pub error : Option Str

pub record MemberLag : Type 0 where
  pub topic : Str
  pub partition : ℤ
  pub committed : ℤ
  pub log_start : ℤ
  pub log_end : ℤ
  pub lag : ℤ
  pub error : Option Str

-- The lags of a group in the order of Sorted, with their Total; the error of the group is Error().
pub record GroupLag : Type 0 where
  pub group : Group
  pub lags : List MemberLag
  pub total : ℤ
  pub topic_count : ℕ

pub record Offset : Type 0 where
  pub offset : ℤ
  pub error : Option Str

pub record ConfigEntry : Type 0 where
  pub key : Str
  pub value : Str
  pub sensitive : Bool
  pub source : ℤ

pub record BrokerConfigs : Type 0 where
  pub broker : Str
  pub entries : List ConfigEntry
  pub error : Option Str

-- The calls; the metadata is that of one topic, or of all, and its bindings, by the topics' names,
-- are in the order of Sorted. DescribeGroups may give descriptions with an error. The offsets are
-- those of the partitions of one topic, by their number.
pub record Admin : Type 0 where
  pub broker_metadata : Result Str Cluster
  pub list_topics : Result Str (Dict TopicDetail)
  pub metadata : Option Str → Result Str (Dict TopicDetail)
  pub list_groups : Result Str (Dict Group)
  pub describe_groups : List Str → Option (Dict Group) × Option Str
  pub lag : List Str → Result Str (Dict GroupLag)
  pub start_offsets : Str → Result Str (List (ℤ × Offset))
  pub end_offsets : Str → Result Str (List (ℤ × Offset))
  pub broker_configs : Option ℤ → Result Str (List BrokerConfigs)

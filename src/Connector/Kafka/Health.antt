-- ===== src/Connector/Kafka/Health.antt =====
-- partitionHealth of connector/kafka/actions.go.
pub mod Reported
use ops_mcp.Connector.Kafka.Admin.{Admin, Partition, TopicDetail}
use ops_mcp.Connector.Kafka.Params.{Numbers, param_string}
use ops_mcp.Connector.Kafka.Topics.{is_under_replicated, one_if, or_conn_err}
use ops_mcp.Model.Errors.{AppError}
use ops_mcp.Prelude.Value.{Value, bool}
use ops_mcp.Prelude.{
  Str, ℕ, Option, List, [], Dict, ℤ, Bool, some, str, ◌∷◌, ◌+◌, if◌then◌else◌, length, Result,
  ltb_ℤ, not, ◌++◌, join, nat_beq, is_empty, none, ◌>>=◌, pos, is_nil, is_some, ◌&&◌, ok, ◌||◌,
  values, ◌==◌, str_eq,
}

pub record Issue : Type 0 where
  pub topic : Str
  pub partition : ℤ
  pub leader : ℤ
  pub replicas : ℕ
  pub isr : ℕ
  pub offline_replicas : ℕ
  pub reason : Str

-- The counters and the issues of the loop.
pub record Tally : Type 0 where
  pub total_partitions : ℕ
  pub under_replicated : ℕ
  pub offline_parts : ℕ
  pub no_leader : ℕ
  pub issues : List Issue

pub record Health : Type 0 where
  pub healthy : Bool
  pub topic_count : ℕ
  pub partition_count : ℕ
  pub under_replicated_count : ℕ
  pub offline_partition_count : ℕ
  pub no_leader_count : ℕ
  pub issues : List Issue
  pub issue_count : ℕ

abbrev pub has_no_leader : Partition → Bool
has_no_leader p = ltb_ℤ p.leader (pos 0)

abbrev pub has_offline : Partition → Bool
has_offline p = not (is_nil p.offline_replicas)

abbrev pub named_if : Bool → Str → List Str
named_if b s = if b then s ∷ [] else []

abbrev pub error_reason : Option Str → List Str
error_reason none = []
error_reason (some e) = e ∷ []

unfoldable pub reasons : Partition → List Str
reasons p =
    named_if (has_no_leader p) (str "no_leader")
    ++ (named_if (has_offline p) (str "offline_replicas")
        ++ (named_if (is_under_replicated p) (str "under_replicated") ++ error_reason p.error))

abbrev pub issue_of : Str → Partition → List Str → List Issue
issue_of topic p [] = []
issue_of topic p (r ∷ rs) =
    record {
      topic = topic;
      partition = p.partition;
      leader = p.leader;
      replicas = length p.replicas;
      isr = length p.isr;
      offline_replicas = length p.offline_replicas;
      reason = join b',' (r ∷ rs);
    }
    ∷ []

unfoldable pub add_partition : Str → Tally → Partition → Tally
unfolding reasons
add_partition topic t p = record {
  total_partitions = t.total_partitions + 1;
  under_replicated = t.under_replicated + one_if (is_under_replicated p);
  offline_parts = t.offline_parts + one_if (has_offline p);
  no_leader = t.no_leader + one_if (has_no_leader p);
  issues = t.issues ++ issue_of topic p (reasons p);
}

unfoldable pub add_partitions : Str → Tally → List Partition → Tally
add_partitions topic t [] = t
add_partitions topic t (p ∷ ps) = add_partitions topic (add_partition topic t p) ps

-- A topic with an error, or another topic than the one asked for, is passed over.
abbrev pub is_visited : Str → TopicDetail → Bool
is_visited topic d = not (is_some d.error) && (is_empty topic || d.topic == topic)

abbrev pub add_topic : Str → Tally → TopicDetail → Tally
add_topic topic t d = if is_visited topic d then add_partitions d.topic t d.partitions else t

unfoldable pub add_topics : Str → Tally → List TopicDetail → Tally
unfolding add_partitions
add_topics topic t [] = t
add_topics topic t (d ∷ ds) = add_topics topic (add_topic topic t d) ds

abbrev pub empty_tally : Tally
empty_tally = record {
  total_partitions = 0;
  under_replicated = 0;
  offline_parts = 0;
  no_leader = 0;
  issues = [];
}

unfoldable pub is_healthy : Tally → Bool
is_healthy t = (nat_beq t.under_replicated 0 && nat_beq t.offline_parts 0) && nat_beq t.no_leader 0

unfoldable pub health_of : ℕ → Tally → Health
unfolding is_healthy
health_of topic_count t = record {
  healthy = is_healthy t;
  topic_count = topic_count;
  partition_count = t.total_partitions;
  under_replicated_count = t.under_replicated;
  offline_partition_count = t.offline_parts;
  no_leader_count = t.no_leader;
  issues = t.issues;
  issue_count = length t.issues;
}

-- Metadata of the topic, or of all where none is named.
abbrev pub asked_topic : Str → Option Str
asked_topic topic = if is_empty topic then none else some topic

module _ (numbers : Numbers) where
  unfoldable pub partition_health : Admin → Dict Value → Result AppError Health
  unfolding add_topics health_of
  partition_health adm params = do
    let topic = param_string numbers params (str "topic")
    meta ← or_conn_err (str "partition_health") (adm.metadata (asked_topic topic))
    ok (health_of (length meta) (add_topics topic empty_tally (values meta)))

-- ===== src/Connector/Kafka/Groups.antt =====
-- Consumer groups and their lag of connector/kafka/actions.go.
use ops_mcp.Connector.Kafka.Admin.{Admin, Group, GroupLag, MemberLag}
use ops_mcp.Connector.Kafka.Params.{
  Numbers, apply_limit, or_zero, param_int, param_string, require_string,
}
use ops_mcp.Connector.Kafka.Topics.{or_conn_err}
use ops_mcp.Model.Errors.{AppError, caused, connector_failed, not_found}
use ops_mcp.Model.Kafka.{KafkaInstance}
use ops_mcp.Prelude.Value.{Value}
use ops_mcp.Prelude.Sorting.{sort_by}
use ops_mcp.Prelude.{
  Str, List, Option, ℕ, Dict, ℤ, [], Bool, some, lookup, Result, keys, ◌∷◌, keep, pos, map, take,
  str, length, if◌then◌else◌, is_empty, none, ◌>>=◌, err, ltb_ℤ, ◌||◌, ok, not, is_nil, add64, ◌==◌,
  str_eq,
}

-- What is known of a group: its description, or only its entry in the list, or neither.
pub data GroupFacts : Type 0 where
  described : Group → GroupFacts
  only_listed : (state : Str) (protocol_type : Str) (coordinator_id : ℤ) → GroupFacts
  unlisted : GroupFacts

pub record GroupItem : Type 0 where
  pub group : Str
  pub facts : GroupFacts

pub record GroupsResult : Type 0 where
  pub groups : List GroupItem
  pub count : ℕ
  pub total : ℕ
  pub truncated : Bool

abbrev pub listed_facts : Option Group → GroupFacts
listed_facts none = unlisted
listed_facts (some g) = only_listed g.state g.protocol_type g.coordinator

abbrev pub facts_of : Option Group → Option Group → GroupFacts
facts_of (some g) listed = described g
facts_of none listed = listed_facts listed

-- A nil map has no entry.
abbrev pub described_group : Str → Option (Dict Group) → Option Group
described_group name none = none
described_group name (some m) = lookup name m

abbrev pub group_item : Option (Dict Group) → Dict Group → Str → GroupItem
group_item descriptions listed name = record {
  group = name;
  facts = facts_of (described_group name descriptions) (lookup name listed);
}

-- An error counts only where there are no descriptions.
abbrev pub descriptions_of :
    Option (Dict Group) × Option Str → Result AppError (Option (Dict Group))
descriptions_of (none, some e) = or_conn_err (str "consumer_groups") (err e)
descriptions_of (d, _) = ok d

abbrev pub groups_result : ℕ → Bool → Dict Group → List Str → Option (Dict Group) → GroupsResult
groups_result total truncated listed selected d = record {
  groups = map (group_item d listed) selected;
  count = length selected;
  total = total;
  truncated = truncated;
}

abbrev pub sorted_names : Dict Group → List Str
sorted_names listed = sort_by (λ s. s) (keys listed)

pub record LagResult : Type 0 where
  pub group : Str
  pub of_group : Group
  pub total_lag : ℤ
  pub partition_count : ℕ
  pub partitions : List MemberLag

-- Only the lags that are positive are added.
unfoldable pub positive_total : ℤ → List ℤ → ℤ
positive_total total [] = total
positive_total total (n ∷ ns) = positive_total (if ltb_ℤ (pos 0) n then add64 total n else total) ns

unfoldable pub asked_lags : Str → List MemberLag → List MemberLag
asked_lags topic lags = keep (λ l. is_empty topic || l.topic == topic) lags

abbrev pub lag_result : Str → GroupLag → List MemberLag → LagResult
lag_result group gl lags = record {
  group = group;
  of_group = gl.group;
  total_lag = positive_total (pos 0) (map (λ l. l.lag) lags);
  partition_count = length lags;
  partitions = lags;
}

abbrev pub lag_of : Str → Str → Option GroupLag → Result AppError LagResult
lag_of group topic none = connector_failed (not_found (str "kafka consumer group") group)
lag_of group topic (some gl) = elim gl.group.error [
  | none ↦ ok (lag_result group gl (asked_lags topic gl.lags))
  | some e ↦ connector_failed (caused group e)
]

-- An entry of the summary: no such group, a group with an error, whose lag is -1, or its lag.
pub data LagEntry : Type 0 where
  missing_group : LagEntry
  failed_group : Group → Str → LagEntry
  group_lag : Group → (total_lag : ℤ) → (topic_count : ℕ) → LagEntry

abbrev pub entry_of : Option GroupLag → LagEntry
entry_of none = missing_group
entry_of (some gl) = elim gl.group.error [
  | none ↦ group_lag gl.group gl.total gl.topic_count
  | some e ↦ failed_group gl.group e
]

-- What an entry adds to the lag of the cluster, where that is positive.
abbrev pub counted_lag : LagEntry → ℤ
counted_lag (group_lag g total topics) = total
counted_lag _ = pos 0

pub record LagSummary : Type 0 where
  pub groups : List (Str × LagEntry)
  pub count : ℕ
  pub group_count : ℕ
  pub total_lag : ℤ

unfoldable pub lag_summary : List Str → Dict GroupLag → LagSummary
unfolding positive_total
lag_summary names lags =
    let entries = map (λ name. entry_of (lookup name lags)) names in
    record {
      groups = map (λ name. (name, entry_of (lookup name lags))) names;
      count = length names;
      group_count = length names;
      total_lag = positive_total (pos 0) (map counted_lag entries);
    }

abbrev pub no_groups : LagSummary
no_groups = record { groups = []; count = 0; group_count = 0; total_lag = pos 0 }

module _ (numbers : Numbers) where
  unfoldable pub consumer_groups : Admin → KafkaInstance → Dict Value → Result AppError GroupsResult
  unfolding apply_limit
  consumer_groups adm inst params = do
    asked ← param_int numbers params (str "limit")
    listed ← or_conn_err (str "consumer_groups") adm.list_groups
    let names = sorted_names listed
    let limited = apply_limit (length names) inst.limit (or_zero asked)
    let selected = take limited.0 names
    d ← descriptions_of (adm.describe_groups selected)
    ok (groups_result (length names) limited.1 listed selected d)

  unfoldable pub consumer_lag : Admin → Dict Value → Result AppError LagResult
  unfolding asked_lags positive_total
  consumer_lag adm params = do
    group ← require_string numbers params (str "group")
    lags ← or_conn_err (str "consumer_lag") (adm.lag (group ∷ []))
    lag_of group (param_string numbers params (str "topic")) (lookup group lags)

  abbrev pub first_groups : KafkaInstance → Option ℤ → Dict Group → List Str
  first_groups inst asked listed =
      let names = sorted_names listed in
      take (apply_limit (length names) inst.limit (or_zero asked)).0 names

  abbrev pub summary_groups : Admin → KafkaInstance → Str → Option ℤ → Result AppError (List Str)
  summary_groups adm inst group asked =
      if not (is_empty group)
      then ok (group ∷ [])
      else or_conn_err (str "consumer_lag_summary") adm.list_groups >>= λ listed.
          ok (first_groups inst asked listed)

  unfoldable pub consumer_lag_summary :
      Admin → KafkaInstance → Dict Value → Result AppError LagSummary
  unfolding lag_summary apply_limit
  consumer_lag_summary adm inst params = do
    asked ← param_int numbers params (str "limit")
    names ← summary_groups adm inst (param_string numbers params (str "group")) asked
    if is_nil names then ok no_groups else do
      lags ← or_conn_err (str "consumer_lag_summary") (adm.lag names)
      ok (lag_summary names lags)

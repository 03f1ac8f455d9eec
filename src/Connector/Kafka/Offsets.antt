-- ===== src/Connector/Kafka/Offsets.antt =====
-- topicOffsets of connector/kafka/actions.go.
use ops_mcp.Connector.Kafka.Admin.{Admin, Offset}
use ops_mcp.Connector.Kafka.Params.{Numbers, require_string}
use ops_mcp.Connector.Kafka.Topics.{error_text, or_conn_err}
use ops_mcp.Model.Errors.{AppError}
use ops_mcp.Prelude.Value.{Value}
use ops_mcp.Prelude.{
  List, ℤ, Str, Option, Dict, ℕ, Bool, none, ◌∷◌, negsuc, some, if◌then◌else◌, map, Result, leb_ℤ,
  ltb_ℤ, ◌++◌, [], ◌>>=◌, ◌&&◌, is_empty, pos, length, str, pos_part, add64, ok, ◌-◌,
}

abbrev pub Offsets : Type 0
Offsets = List (ℤ × Offset)

pub record PartitionOffsets : Type 0 where
  pub partition : ℤ
  pub earliest : ℤ
  pub latest : ℤ
  pub message_count : ℤ
  pub error : Str

pub record OffsetsResult : Type 0 where
  pub topic : Str
  pub partitions : List PartitionOffsets
  pub partition_count : ℕ
  pub total_messages : ℤ

abbrev pub same_number : ℤ → ℤ → Bool
same_number a b = leb_ℤ a b && leb_ℤ b a

unfoldable pub offset_at : ℤ → Offsets → Option Offset
offset_at p [] = none
offset_at p (b ∷ bs) = let rest = offset_at p bs in if same_number b.0 p then some b.1 else rest

-- A set of numbers, in ascending order.
unfoldable pub add_number : ℤ → List ℤ → List ℤ
add_number n [] = n ∷ []
add_number n (m ∷ ms) =
    let rest = add_number n ms in
    if same_number n m then m ∷ ms else if ltb_ℤ n m then n ∷ m ∷ ms else m ∷ rest

unfoldable pub add_numbers : Offsets → List ℤ → List ℤ
unfolding add_number
add_numbers [] ns = ns
add_numbers (b ∷ bs) ns = add_numbers bs (add_number b.0 ns)

abbrev pub offset_or : Option Offset → ℤ
offset_or none = negsuc 0
offset_or (some o) = o.offset

abbrev pub offset_error : Option Offset → Option Str
offset_error none = none
offset_error (some o) = o.error

abbrev pub joined_errors : Option Str → Option Str → Str
joined_errors s none = error_text s
joined_errors none (some e) = e
joined_errors (some s) (some e) = s ++ (if is_empty s then [] else str "; ") ++ e

-- -1 where an offset is missing or the latest is before the earliest.
unfoldable pub size_of : ℤ → ℤ → ℤ
size_of earliest latest =
    if leb_ℤ (pos 0) earliest && leb_ℤ earliest latest
    then pos (pos_part latest - pos_part earliest)
    else negsuc 0

unfoldable pub partition_offsets : Offsets → Offsets → ℤ → PartitionOffsets
unfolding offset_at size_of
partition_offsets starts ends p =
    let s = offset_at p starts in
    let e = offset_at p ends in
    record {
      partition = p;
      earliest = offset_or s;
      latest = offset_or e;
      message_count = size_of (offset_or s) (offset_or e);
      error = joined_errors (offset_error s) (offset_error e);
    }

-- Only the sizes that are known are added.
unfoldable pub total_size : ℤ → List PartitionOffsets → ℤ
total_size total [] = total
total_size total (p ∷ ps) =
    total_size (if leb_ℤ (pos 0) p.message_count then add64 total p.message_count else total) ps

unfoldable pub offsets_result : Str → Offsets → Offsets → OffsetsResult
unfolding add_numbers partition_offsets total_size
offsets_result topic starts ends =
    let partitions =
      map (partition_offsets starts ends) (add_numbers ends (add_numbers starts [])) in
    record {
      topic = topic;
      partitions = partitions;
      partition_count = length partitions;
      total_messages = total_size (pos 0) partitions;
    }

module _ (numbers : Numbers) where
  unfoldable pub topic_offsets : Admin → Dict Value → Result AppError OffsetsResult
  unfolding offsets_result
  topic_offsets adm params = do
    topic ← require_string numbers params (str "topic")
    starts ← or_conn_err (str "topic_offsets") (adm.start_offsets topic)
    ends ← or_conn_err (str "topic_offsets") (adm.end_offsets topic)
    ok (offsets_result topic starts ends)

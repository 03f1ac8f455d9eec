-- ===== src/Mcp/Server/Replies.antt =====
-- What a reply is to the id and the method of a request.
use ops_mcp.Prelude.Value.{null}
use ops_mcp.Mcp.Protocol.{Codec, decode_id, Request, is_notification, Response}
use ops_mcp.Mcp.Server.{Value, some, Option, is_empty}
use ops_mcp.Prelude.{
  ℤ, ◌≡◌, refl, sym, ◌↔◌, ◌⊎◌, Bool, true, false, none, List, [], ◌∷◌, arith, ◌==◌, any, any_iff,
  Has, here, there, Str, str, str_beq, str_beq_iff, str_eq, Bool-cases, inl, inr, is_empty_iff,
}

-- The methods that get a result, and those that get nothing.
abbrev pub answered : List Str
answered = str "initialize" ∷ str "ping" ∷ str "tools/list" ∷ str "tools/call" ∷ []

abbrev pub silent : List Str
silent = str "notifications/initialized" ∷ str "initialized" ∷ []

-- A request of version 2.0, or of none.
abbrev pub IsVersion2 : Request → Type 0
IsVersion2 req = (req.jsonrpc ≡ []) ⊎ (req.jsonrpc ≡ str "2.0")

abbrev pub is_one_of : List Str → Str → Bool
is_one_of ms m = any (λ x. m == x) ms

pub is_one_of_iff : (ms : List Str) (m : Str) → (is_one_of ms m ≡ true) ↔ Has m ms
is_one_of_iff ms m =
    any_iff (λ x. x ≡ m) (λ x. m == x)
      (λ x. (λ h. sym ((str_beq_iff m x).0 h), λ e. (str_beq_iff m x).1 (sym e))) ms

-- No method is in both lists.
pub apart : (m : Str) → is_one_of silent m ≡ true → is_one_of answered m ≡ false
unfolding str_beq
apart m h = elim ((is_one_of_iff silent m).0 h) [
  | here e ↦ rw (← e) refl
  | there (here e) ↦ rw (← e) refl
  | there (there s) ↦ elim s [ ]
]

-- A request without an id, which is a notification.
abbrev pub NoId : Str → Type 0
NoId id = (id ≡ []) ⊎ (id ≡ str "null")

pub NoId-iff : (id : Str) → (is_notification id ≡ true) ↔ NoId id
unfolding is_notification
NoId-iff id = (
  (λ h. elim (Bool-cases (is_empty id)) [
    | inl e ↦ inl ((is_empty_iff id).0 e)
    | inr e ↦ inr ((str_beq_iff id (str "null")).0 (ground arith))
  ]),
  elim [
    | inl e ↦ let x = (is_empty_iff id).1 e in ground arith
    | inr e ↦ let x = (str_beq_iff id (str "null")).1 e in ground arith
  ],
)

-- The id of an answer: null where the request has none, else the value of its id.
pub record IsIdOf (codec : Codec) (raw : Str) (id : Value) : Type 0 where
  pub absent : NoId raw → id ≡ null
  pub given : (v : Value) → (¬ NoId raw) → codec.value raw ≡ some v → id ≡ v
  pub unread : codec.value raw ≡ none → id ≡ null

pub IsIdOf-decode_id : (codec : Codec) (raw : Str) → IsIdOf codec raw (decode_id codec raw)
unfolding decode_id
IsIdOf-decode_id codec raw = record {
  absent = λ h. rw ((NoId-iff raw).1 h) refl;
  given = λ v h e. elim (Bool-cases (is_notification raw)) [
    | inl n ↦ absurd (h ((NoId-iff raw).0 n))
    | inr n ↦ rw n (rw e refl)
  ];
  unread =
      λ e. elim (Bool-cases (is_notification raw)) [ inl n ↦ rw n refl | inr n ↦ rw n (rw e refl) ];
}

-- An answer that has a result, and one that has an error, to the request of an id.
abbrev pub IsResult : Codec → Str → Value → Option Response → Type 0
IsResult codec raw v out =
    (id : Value) × IsIdOf codec raw id
    × (out ≡ some (record { jsonrpc = str "2.0"; id = id; result = some v; error = none }))

abbrev pub IsError : Codec → Str → ℤ → Str → Option Response → Type 0
IsError codec raw code message out =
    (id : Value) × IsIdOf codec raw id
    × (out
        ≡ some (record {
          jsonrpc = str "2.0";
          id = id;
          result = none;
          error = some (record { code = code; message = message; error_data = null });
        }))

-- ===== src/Connector/Net/Payload.antt =====
-- DecodeData, BytesToInts and BytesToHex of connector/netutil/payload.go.
pub mod Hex
use ops_mcp.Prelude.{
  ℕ, ◌+◌, ◌-◌, ◌*◌, ◌/◌, ◌%◌, ◌&&◌, ◌||◌, not, Option, none, some, List, [], ◌∷◌, map, ltb, leb,
  nat_beq, if◌then◌else◌, length, is_nil, ℤ, pos, pos_part, ltb_ℤ, Str, is_empty, trim_space,
  remove_byte, Result, ok, err, ◌>>=◌, refuse, ◌>>◌,
}

-- An element of a decoded JSON array, by its Go type. A float is its bit pattern, and a
-- json.Number its text.
pub data Element : Type 0 where
  int int64 : ℤ → Element
  float64 : ℕ → Element
  json_number : Str → Element
  other_element : Element

-- The `data` of a request, by its Go type.
pub data Data : Type 0 where
  absent : Data
  text : Str → Data
  bytes : List ℕ → Data
  mixed : List Element → Data
  ints : List ℤ → Data
  floats : List ℕ → Data
  other_data : Data

-- The position of an element is its index.
pub data DataError : Type 0 where
  data_required odd_length data_empty bad_type : DataError
  invalid_byte : ℕ → DataError
  out_of_range not_integer : ℕ → DataError

-- encoding/hex.
unfoldable pub hex_value : ℕ → Option ℕ
hex_value c =
    if leb b'0' c && leb c b'9'
    then some (c - 48)
    else if leb b'a' c && leb c b'f'
    then some (c - 87)
    else if leb b'A' c && leb c b'F'
    then some (c - 55)
    else none

abbrev pub hex_or_invalid : ℕ → Result DataError ℕ
hex_or_invalid c = elim (hex_value c) [ none ↦ err (invalid_byte c) | some n ↦ ok n ]

-- An odd last byte is dropped: the caller has tested the length.
unfoldable pub hex_decode : Str → Result DataError (List ℕ)
hex_decode [] = ok []
hex_decode (c ∷ []) = ok []
hex_decode (c ∷ d ∷ s) =
    let rest = hex_decode s in
    hex_or_invalid c >>= λ high.
    hex_or_invalid d >>= λ low. rest >>= λ bs. ok ((high * 16 + low) ∷ bs)

unfoldable pub hex_digit : ℕ → ℕ
hex_digit n = if ltb n 10 then 48 + n else 87 + n

unfoldable pub bytes_to_hex : List ℕ → Str
unfolding hex_digit
bytes_to_hex [] = []
bytes_to_hex (b ∷ bs) = hex_digit (b / 16) ∷ hex_digit (b % 16) ∷ bytes_to_hex bs

unfoldable pub bytes_to_ints : List ℕ → List ℤ
bytes_to_ints = map pos

unfoldable pub strip_separators : Str → Str
strip_separators s = remove_byte b'-' (remove_byte b':' (remove_byte b' ' s))

abbrev pub nonempty : List ℕ → Result DataError (List ℕ)
nonempty bs = if is_nil bs then err data_empty else ok bs

unfoldable pub decode_text : Str → Result DataError (List ℕ)
unfolding strip_separators hex_decode
decode_text v =
    let s = trim_space v in
    let t = strip_separators s in
    if is_empty s
    then err data_required
    else if not (nat_beq (length t % 2) 0)
    then err odd_length
    else hex_decode t >>= nonempty

unfoldable pub byte_of : ℕ → ℤ → Result DataError ℕ
byte_of i n = if ltb_ℤ n (pos 0) || ltb_ℤ (pos 255) n then err (out_of_range i) else ok (pos_part n)

abbrev pub byte_if : ℕ → Option ℤ → Result DataError ℕ
byte_if i none = err (out_of_range i)
byte_if i (some n) = byte_of i n

-- The loops over arrays, from index `i` on.
unfoldable pub each_byte {ℓ} :
    {A : Type ℓ} → (ℕ → A → Result DataError ℕ) → ℕ → List A → Result DataError (List ℕ)
each_byte f i [] = ok []
each_byte f i (x ∷ xs) =
    let rest = each_byte f (i + 1) xs in f i x >>= λ b. rest >>= λ bs. ok (b ∷ bs)

-- `integral` is int(f) where float64(int(f)) is f again; `int64_of` is json.Number.Int64.
module _ (integral : ℕ → Option ℤ) (int64_of : Str → Option ℤ) where
  unfoldable pub to_byte : ℕ → Element → Result DataError ℕ
  unfolding byte_of
  to_byte i (int n) = byte_of i n
  to_byte i (int64 n) = byte_of i n
  to_byte i (float64 f) = byte_if i (integral f)
  to_byte i (json_number s) = byte_if i (int64_of s)
  to_byte i other_element = err (not_integer i)

  unfoldable pub ints_from_any : List Element → Result DataError (List ℕ)
  unfolding to_byte each_byte
  ints_from_any v = if is_nil v then err data_empty else each_byte to_byte 0 v

  unfoldable pub decode_data : Data → Result DataError (List ℕ)
  unfolding decode_text ints_from_any
  decode_data absent = err data_required
  decode_data (text v) = decode_text v
  decode_data (bytes v) = nonempty v
  decode_data (mixed v) = ints_from_any v
  decode_data (ints v) = each_byte byte_of 0 v >>= nonempty
  decode_data (floats v) = each_byte (λ i f. byte_if i (integral f)) 0 v >>= nonempty
  decode_data other_data = err bad_type

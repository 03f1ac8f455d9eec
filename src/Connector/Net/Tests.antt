-- ===== src/Connector/Net/Tests.antt =====
-- Payloads, and an exchange with a peer that sends three bytes and keeps the connection open.
use mathlib.Core.Path.{subst}
use ops_mcp.Prelude.{
  ℕ, Str, trim_space, ◌∷◌, none, ok, str, Bool-cases, Result, Option, remove_byte, [], List, pos,
  ◌<◌, ℤ, ◌≡◌, has_prefix, arith, if◌then◌else◌, length, inl, some, err, take, length-take,
  ok_injective, refl, suc, inr, nat_beq, zero,
}
use ops_mcp.Connector.Net.Payload.{
  text, ints, bytes, decode_data, decode_text, hex_value, bytes_to_hex, bytes_to_ints, odd_length,
  invalid_byte,
}
use ops_mcp.Connector.Net.Payload.Hex.{decode_data-bytes_to_hex}
use ops_mcp.Connector.Net.Exchange.{
  Conn, Network, ReadEnd, more, timed_out, ExchangeRequest, ExchangeResult, ExchangeError,
  tcp_exchange,
}
use ops_mcp.Connector.Net.Exchange.Reading.{IsReader}
use ops_mcp.Connector.Net.Exchange.Bounded.{Fits, tcp_exchange_lem}

abbrev no_integral : ℕ → Option ℤ
no_integral f = none

abbrev no_number : Str → Option ℤ
no_number s = none

spaced : decode_text (str " DE:ad-0 1") ≡ ok (0xde ∷ 0xad ∷ 1 ∷ [])
unfolding decode_text trim_space remove_byte has_prefix hex_value
spaced = refl

faulty :
    (decode_text (str "abc") ≡ err odd_length) × (decode_text (str "0g") ≡ err (invalid_byte b'g'))
unfolding decode_text trim_space remove_byte has_prefix hex_value
faulty = (refl, refl)

decode_data-bytes_to_hex_example :
    (decode_data no_integral no_number (text (bytes_to_hex (0 ∷ 255 ∷ []))) ≡ ok (0 ∷ 255 ∷ []))
    × (decode_data no_integral no_number (ints (bytes_to_ints (0 ∷ 255 ∷ []))) ≡ ok (0 ∷ 255 ∷ []))
decode_data-bytes_to_hex_example =
    decode_data-bytes_to_hex no_integral no_number (0 ∷ 255 ∷ []) (omega arith, (omega arith, tt))
      (λ h. cc h)

abbrev three : List ℕ
three = 1 ∷ 2 ∷ 3 ∷ []

-- The first read gives what fits of three bytes; the later ones time out.
abbrev reads : ℕ → ℕ → List ℕ × ReadEnd
reads i k = if nat_beq i 0 then (take k three, more) else ([], timed_out (str "timeout"))

abbrev peer : Conn
peer = record { set_deadline = λ t. none; write = λ b. none; read = reads; elapsed = pos 7 }

abbrev net : Network
net = record {
  dial_tcp = λ a t. ok peer;
  dial_udp = λ a t. ok peer;
  resolve_udp = λ a. ok a;
  decimal = λ n. str "80";
  parse_duration = λ s. none;
  integral = no_integral;
  int64_of = no_number;
}

abbrev request : ExchangeRequest
request = record {
  ip = str "10.0.0.1";
  port = pos 80;
  payload = bytes (1 ∷ []);
  timeout = [];
  max_response_bytes = pos 8;
}

first_read : (k : ℕ) → 0 < k → 0 < length (take k three)
first_read zero h = absurd (omega arith)
first_read (suc k) h = omega arith

peer-IsReader : IsReader peer
peer-IsReader = record {
  in_room = λ i k. elim (Bool-cases (nat_beq i 0)) [
    | inl a ↦ rw a (omega (arith, length-take k three))
    | inr a ↦ rw a (omega arith)
  ];
  progress = λ i k h. elim (Bool-cases (nat_beq i 0)) [
    | inl a ↦ rw a (λ m. first_read k h)
    | inr a ↦ rw a (λ m. absurd (cc m))
  ];
}

readers :
    (addr : Str) (timeout : ℤ) (conn : Conn) → net.dial_tcp addr timeout ≡ ok conn → IsReader conn
readers addr timeout conn h = subst IsReader (ok_injective h) peer-IsReader

tcp_exchange_example :
    (out : Result ExchangeError ExchangeResult) × (tcp_exchange net none request ≡ some out)
    × Fits net none request out
tcp_exchange_example = tcp_exchange_lem net readers none request

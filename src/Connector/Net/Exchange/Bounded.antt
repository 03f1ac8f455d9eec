-- ===== src/Connector/Net/Exchange/Bounded.antt =====
-- An exchange over TCP ends, within its limit of bytes.
use ops_mcp.Guard.Limits.Bounds.{resolve_max_response_bytes_iff}
use ops_mcp.Connector.Net.Exchange.Reading.{
  IsReader, Ends, Received, read_all-Ends, read_all-Received,
}
use mathlib.Core.Path.{subst}
use ops_mcp.Prelude.{
  ℕ, length, Result, List, ok, Option, ◌≡◌, err, some, arith, inl, inr, str, refl, ℤ, pos, ◌≤ℤ◌,
  ◌⊎◌, pos_part, Str, [], >>=-eq-ok, ok_injective, ◌∙◌, ap, negsuc, Result-cases,
}
use ops_mcp.Connector.Net.Exchange.{
  Conn, ExchangeError, room, Network, ExchangeRequest, ExchangeResult, resolve_max_response_bytes,
  bytes_to_hex, bytes_to_ints, open_tcp, Checked, LimitError, check_request, from_limit, at_step,
  validate_target, join_host_port, from_data, unless_cause, decode_data, resolve_timeout,
  default_timeout, read_all, tcp_exchange, tcp_read, result_with, tcp_answer,
}

-- A result has what was read from the connection, within the limit of the request. An error comes from the checks,
-- the connection or the sending, or from a first read that gives nothing.
abbrev pub Fits :
    Network → Option ℤ → ExchangeRequest → Result ExchangeError ExchangeResult → Type 0
Fits net remain req (ok r) =
    (c : Checked) × (conn : Conn) × (buf : List ℕ) × (open_tcp net remain req ≡ ok (c, conn))
    × Received conn (pos_part c.max_resp) 0 [] buf
    × (resolve_max_response_bytes req.max_response_bytes ≡ ok c.max_resp)
    × (pos (length buf) ≤ℤ c.max_resp)
    × (r.response_bytes ≡ length buf)
    × (r.hex ≡ bytes_to_hex buf)
    × (r.bytes ≡ bytes_to_ints buf)
Fits net remain req (err e) =
    (open_tcp net remain req ≡ err e)
    ⊎ ((c : Checked) × (conn : Conn) × (open_tcp net remain req ≡ ok (c, conn))
        × (length (conn.read 0 (room conn (pos_part c.max_resp) [])).0 ≡ 0))

from_limit-eq-ok : {A : Type 0} (r : Result LimitError A) {a : A} → from_limit r ≡ ok a → r ≡ ok a
from_limit-eq-ok (ok x) h = cc
from_limit-eq-ok (err x) h = absurd (cc h)

check_request-limit :
    (net : Network) (remain : Option ℤ) (req : ExchangeRequest) (c : Checked)
    → check_request net remain req ≡ ok c
    → resolve_max_response_bytes req.max_response_bytes ≡ ok c.max_resp
unfolding check_request
check_request-limit net remain req c h =
    let (target, _, h1) = >>=-eq-ok (from_limit (validate_target req.ip req.port)) _ h in
    let (payload, _, h2) =
      >>=-eq-ok (from_data (decode_data net.integral net.int64_of req.payload)) _ h1 in
    let (limit, got, h3) =
      >>=-eq-ok (from_limit (resolve_max_response_bytes req.max_response_bytes)) _ h2 in
    let (timeout, _, h4) =
      >>=-eq-ok (from_limit (resolve_timeout net.parse_duration remain req.timeout default_timeout))
        _ h3 in
    from_limit-eq-ok _ got ∙ ap (λ (x : Checked). ok x.max_resp) (ok_injective h4)

at_step-eq-ok :
    {A : Type 0} (step : Str) (r : Result Str A) {a : A} → at_step step r ≡ ok a → r ≡ ok a
at_step-eq-ok step (ok x) h = cc
at_step-eq-ok step (err x) h = absurd (cc h)

open_tcp-parts :
    (net : Network) (remain : Option ℤ) (req : ExchangeRequest) (c : Checked) (conn : Conn)
    → open_tcp net remain req ≡ ok (c, conn)
    → (resolve_max_response_bytes req.max_response_bytes ≡ ok c.max_resp)
      × ((addr : Str) × (net.dial_tcp addr c.timeout ≡ ok conn))
unfolding open_tcp
open_tcp-parts net remain req c conn h =
    let (d, checked, h1) = >>=-eq-ok (check_request net remain req) _ h in
    let addr = join_host_port net.decimal d.host d.port in
    let (k, dialled, h2) =
      >>=-eq-ok (at_step (str "tcp dial") (net.dial_tcp addr d.timeout)) _ h1 in
    let (_, _, h3) =
      >>=-eq-ok (unless_cause (str "tcp set deadline") (k.set_deadline d.timeout)) _ h2 in
    let (_, _, h4) = >>=-eq-ok (unless_cause (str "tcp write") (k.write d.payload)) _ h3 in
    let same = ok_injective h4 in
    (
      check_request-limit net remain req d checked
          ∙ ap (λ (p : Checked × Conn). ok p.0.max_resp) same,
      (
        addr,
        subst (λ (p : Checked × Conn). net.dial_tcp addr p.0.timeout ≡ ok p.1) same
            (at_step-eq-ok (str "tcp dial") _ dialled),
      ),
    )

resolved_parts : (n m : ℤ) → resolve_max_response_bytes n ≡ ok m → m ≡ pos (pos_part m)
resolved_parts n (pos k) h = refl
resolved_parts n (negsuc k) h = elim ((resolve_max_response_bytes_iff n (negsuc k)).0 h) [
  | inl e ↦ absurd (cc e.1)
  | inr e ↦ absurd (ground (arith, e))
]

-- Whatever a peer that keeps to the laws of Read sends, an exchange over TCP comes to an end. Its
-- result has the bytes of its reads, in order, at most as many as the request's limit, with their
-- number, as hexadecimal text and as numbers; an error is one of the checks, of the connection or of
-- the sending, or the first read gave nothing.
pub tcp_exchange_lem :
    (net : Network)
    → ((addr : Str) (timeout : ℤ) (conn : Conn)
        → net.dial_tcp addr timeout ≡ ok conn
        → IsReader conn)
    → (remain : Option ℤ) (req : ExchangeRequest)
    → (out : Result ExchangeError ExchangeResult) × (tcp_exchange net remain req ≡ some out)
      × Fits net remain req out
unfolding tcp_exchange
tcp_exchange_lem net readers remain req = elim (Result-cases (open_tcp net remain req)) [
  | inl (e, h) ↦ (err e, ap (tcp_read net) h, inl h)
  | inr ((c, conn), h) ↦
      let (limit, (addr, dialled)) = open_tcp-parts net remain req c conn h in
      by_end c conn h limit
        (read_all-Ends conn (pos_part c.max_resp) (readers addr c.timeout conn dialled))
]
  where
    by_end :
        (c : Checked) (conn : Conn)
        → open_tcp net remain req ≡ ok (c, conn)
        → resolve_max_response_bytes req.max_response_bytes ≡ ok c.max_resp
        → Ends
            (pos_part c.max_resp)
            (conn.read 0 (room conn (pos_part c.max_resp) [])).0
            (read_all conn (pos_part c.max_resp))
        → (out : Result ExchangeError ExchangeResult) × (tcp_read net (open_tcp net remain req)
            ≡ some out)
          × Fits net remain req out
    by_end c conn h limit (ok buf, e, w) = (
      ok (result_with net (str "tcp") c conn.elapsed buf),
      ap (tcp_read net) h ∙ ap (tcp_answer net c conn) e,
      (
        c,
        conn,
        buf,
        h,
        read_all-Received conn (pos_part c.max_resp) buf e,
        limit,
        rw (resolved_parts _ c.max_resp limit) (omega arith),
        refl,
        refl,
        refl,
      ),
    )
    by_end c conn h limit (err x, e, w) =
        (err x, ap (tcp_read net) h ∙ ap (tcp_answer net c conn) e, inr (c, conn, h, w))

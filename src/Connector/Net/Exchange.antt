-- ===== src/Connector/Net/Exchange.antt =====
-- Exchange of connector/tcp/tcp.go and of connector/udp/udp.go, on a network that is a parameter.
pub mod Reading
pub mod Bounded
use ops_mcp.Connector.Net.Payload.{Data, DataError, decode_data, bytes_to_hex, bytes_to_ints}
use ops_mcp.Guard.Limits.{LimitError, validate_target, resolve_max_response_bytes, resolve_timeout}
use ops_mcp.Prelude.{
  ℕ, zero, suc, ◌+◌, ◌-◌, Bool, true, false, Option, none, some, List, [], ◌∷◌, ◌++◌, ltb, nat_beq,
  if◌then◌else◌, length, any, is_nil, ℤ, pos, pos_part, Str, str, Result, ok, err, ◌>>=◌,
}

pub record ExchangeRequest : Type 0 where
  pub ip : Str
  pub port : ℤ
  pub payload : Data
  pub timeout : Str
  pub max_response_bytes : ℤ

pub record ExchangeResult : Type 0 where
  pub ip : Str
  pub port : ℤ
  pub protocol : Str
  pub request_bytes : ℕ
  pub response_bytes : ℕ
  pub hex : Str
  pub bytes : List ℤ
  pub rtt_ms : ℤ

-- The last one is a connector error: the step of the exchange that failed, and the cause.
pub data ExchangeError : Type 0 where
  bad_limit : LimitError → ExchangeError
  bad_data : DataError → ExchangeError
  step_failed : Str → Str → ExchangeError

-- The error of a read: none, io.EOF, a timeout of the network, or another one.
pub data ReadEnd : Type 0 where
  more eof : ReadEnd
  timed_out broken : Str → ReadEnd

-- A connection: SetDeadline and Write, and Read, which takes how many reads went before and the
-- room in the buffer. `elapsed` is the time of the exchange in milliseconds.
pub record Conn : Type 0 where
  pub set_deadline : ℤ → Option Str
  pub write : List ℕ → Option Str
  pub read : ℕ → ℕ → List ℕ × ReadEnd
  pub elapsed : ℤ

-- Dial with a timeout, ResolveUDPAddr, and what a request needs of the standard library.
pub record Network : Type 0 where
  pub dial_tcp : Str → ℤ → Result Str Conn
  pub dial_udp : Str → ℤ → Result Str Conn
  pub resolve_udp : Str → Result Str Str
  pub decimal : ℤ → Str
  pub parse_duration : Str → Option ℤ
  pub integral : ℕ → Option ℤ
  pub int64_of : Str → Option ℤ

abbrev pub from_limit {ℓ} : {A : Type ℓ} → Result LimitError A → Result ExchangeError A
from_limit (ok a) = ok a
from_limit (err e) = err (bad_limit e)

abbrev pub from_data {ℓ} : {A : Type ℓ} → Result DataError A → Result ExchangeError A
from_data (ok a) = ok a
from_data (err e) = err (bad_data e)

abbrev pub at_step {ℓ} : {A : Type ℓ} → Str → Result Str A → Result ExchangeError A
at_step step (ok a) = ok a
at_step step (err cause) = err (step_failed step cause)

abbrev pub unless_cause : Str → Option Str → Result ExchangeError (Unit {0})
unless_cause step none = ok tt
unless_cause step (some cause) = err (step_failed step cause)

-- JoinHostPort, which brackets a host with colons.
unfoldable pub join_host_port : (ℤ → Str) → Str → ℤ → Str
join_host_port decimal host port =
    if any (λ c. nat_beq c b':') host
    then str "[" ++ (host ++ (str "]:" ++ decimal port))
    else host ++ (str ":" ++ decimal port)

pub record Checked : Type 0 where
  pub host : Str
  pub port : ℤ
  pub payload : List ℕ
  pub max_resp : ℤ
  pub timeout : ℤ

-- The default timeout is 5 seconds, in nanoseconds.
abbrev pub default_timeout : ℤ
default_timeout = pos 5000000000

abbrev pub min_of : ℕ → ℕ → ℕ
min_of a b = if ltb a b then a else b

module _ (net : Network) where
  -- The checks with which both begin; `remain` is the time until the deadline of the context.
  unfoldable pub check_request : Option ℤ → ExchangeRequest → Result ExchangeError Checked
  check_request remain req = from_limit (validate_target req.ip req.port) >>= λ target.
      from_data (decode_data net.integral net.int64_of req.payload) >>= λ payload.
      from_limit (resolve_max_response_bytes req.max_response_bytes) >>= λ max_resp.
      from_limit (resolve_timeout net.parse_duration remain req.timeout default_timeout)
      >>= λ timeout. ok (record {
        host = target.0;
        port = target.1;
        payload = payload;
        max_resp = max_resp;
        timeout = timeout;
      })

  abbrev pub result_with : Str → Checked → ℤ → List ℕ → ExchangeResult
  result_with protocol c rtt buf = record {
    ip = c.host;
    port = c.port;
    protocol = protocol;
    request_bytes = length c.payload;
    response_bytes = length buf;
    hex = bytes_to_hex buf;
    bytes = bytes_to_ints buf;
    rtt_ms = rtt;
  }

-- What a read without an error leads to is `next`; any other ends the loop.
abbrev pub after_read :
    ReadEnd
    → List ℕ
    → Option (Result ExchangeError (List ℕ))
    → Option (Result ExchangeError (List ℕ))
after_read more buf next = next
after_read eof buf next = some (ok buf)
after_read (timed_out cause) buf next =
    if ltb 0 (length buf) then some (ok buf) else some (err (step_failed (str "tcp read") cause))
after_read (broken cause) buf next =
    if is_nil buf then some (err (step_failed (str "tcp read") cause)) else some (ok buf)

module _ (conn : Conn) (max_resp : ℕ) where
  abbrev pub room : List ℕ → ℕ
  room buf = min_of (min_of max_resp 8192) (max_resp - length buf)

  -- `for len(buf) < maxResp`, with the number of reads so far; `none` is the end of the fuel.
  unfoldable pub read_loop : ℕ → ℕ → List ℕ → Option (Result ExchangeError (List ℕ))
  read_loop zero i buf = none
  read_loop (suc fuel) i buf =
      let (chunk, end) = conn.read i (room buf) in
      let next = read_loop fuel (i + 1) (buf ++ chunk) in
      if ltb (length buf) max_resp then after_read end (buf ++ chunk) next else some (ok buf)

-- A read without an error gives at least one byte, so that this fuel is enough.
unfoldable pub read_all : Conn → ℕ → Option (Result ExchangeError (List ℕ))
unfolding read_loop
read_all conn max_resp = read_loop conn max_resp (suc max_resp) 0 []

module _ (net : Network) where
  -- Up to the first read: the connection and what was checked.
  unfoldable pub open_tcp : Option ℤ → ExchangeRequest → Result ExchangeError (Checked × Conn)
  unfolding check_request join_host_port
  open_tcp remain req = check_request net remain req >>= λ c.
      at_step (str "tcp dial") (net.dial_tcp (join_host_port net.decimal c.host c.port) c.timeout)
      >>= λ conn. unless_cause (str "tcp set deadline") (conn.set_deadline c.timeout) >>= λ set.
          unless_cause (str "tcp write") (conn.write c.payload) >>= λ sent. ok (c, conn)

  abbrev pub tcp_answer :
      Checked
      → Conn
      → Option (Result ExchangeError (List ℕ))
      → Option (Result ExchangeError ExchangeResult)
  tcp_answer c conn none = none
  tcp_answer c conn (some (err e)) = some (err e)
  tcp_answer c conn (some (ok buf)) = some (ok (result_with net (str "tcp") c conn.elapsed buf))

  abbrev pub tcp_read :
      Result ExchangeError (Checked × Conn) → Option (Result ExchangeError ExchangeResult)
  tcp_read (err e) = some (err e)
  tcp_read (ok (c, conn)) = tcp_answer c conn (read_all conn (pos_part c.max_resp))

  unfoldable pub tcp_exchange :
      Option ℤ → ExchangeRequest → Option (Result ExchangeError ExchangeResult)
  unfolding open_tcp read_all
  tcp_exchange remain req = tcp_read (open_tcp remain req)

  -- The one read of a datagram: any error of it is returned.
  abbrev pub datagram : List ℕ × ReadEnd → Result ExchangeError (List ℕ)
  datagram (buf, more) = ok buf
  datagram (buf, eof) = err (step_failed (str "udp read") (str "EOF"))
  datagram (buf, timed_out cause) = err (step_failed (str "udp read") cause)
  datagram (buf, broken cause) = err (step_failed (str "udp read") cause)

  unfoldable pub udp_exchange : Option ℤ → ExchangeRequest → Result ExchangeError ExchangeResult
  unfolding check_request join_host_port
  udp_exchange remain req = check_request net remain req >>= λ c.
      at_step (str "udp resolve") (net.resolve_udp (join_host_port net.decimal c.host c.port))
      >>= λ addr. at_step (str "udp dial") (net.dial_udp addr c.timeout) >>= λ conn.
          unless_cause (str "udp set deadline") (conn.set_deadline c.timeout) >>= λ set.
          unless_cause (str "udp write") (conn.write c.payload) >>= λ sent.
          datagram (conn.read 0 (pos_part c.max_resp)) >>= λ resp.
          ok (result_with net (str "udp") c conn.elapsed resp)

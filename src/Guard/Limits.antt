-- ===== src/Guard/Limits.antt =====
-- ClampLimit of connector/redis/limit.go, and ValidateTarget, ResolveMaxResponseBytes and
-- ResolveTimeout of connector/netutil/payload.go.
pub mod Bounds
use ops_mcp.Prelude.{
  ◌||◌, Option, none, some, if◌then◌else◌, ℤ, pos, ltb_ℤ, is_nonpos, Str, is_empty, trim_space,
  Result, ok, err, ◌>>=◌,
}

pub data LimitError : Type 0 where
  limit_required ip_required bad_port negative_bytes too_many_bytes : LimitError
  bad_timeout timeout_not_positive deadline_exceeded : LimitError

unfoldable pub clamp_limit : ℤ → ℤ → Result LimitError ℤ
clamp_limit requested max_limit =
    let top = if is_nonpos max_limit then pos 1000 else max_limit in
    if is_nonpos requested
    then err limit_required
    else if ltb_ℤ top requested
    then ok top
    else ok requested

unfoldable pub validate_target : Str → ℤ → Result LimitError (Str × ℤ)
validate_target ip port =
    let host = trim_space ip in
    if is_empty host
    then err ip_required
    else if ltb_ℤ port (pos 1) || ltb_ℤ (pos 65535) port
    then err bad_port
    else ok (host, port)

abbrev pub default_max_response_bytes : ℤ
default_max_response_bytes = pos 65536

abbrev pub absolute_max_response_bytes : ℤ
absolute_max_response_bytes = pos 1048576

unfoldable pub resolve_max_response_bytes : ℤ → Result LimitError ℤ
resolve_max_response_bytes n =
    if ltb_ℤ n (pos 0)
    then err negative_bytes
    else let m = if is_nonpos n then default_max_response_bytes else n in
      if ltb_ℤ absolute_max_response_bytes m then err too_many_bytes else ok m

-- `parse_duration` is time.ParseDuration; `remain` is the time until the deadline, if there is one.
unfoldable pub asked_timeout : (Str → Option ℤ) → Str → ℤ → Result LimitError ℤ
asked_timeout parse_duration text fallback =
    if is_empty (trim_space text) then ok fallback else elim (parse_duration (trim_space text)) [
      | none ↦ err bad_timeout
      | some d ↦ if is_nonpos d then err timeout_not_positive else ok d
    ]

abbrev pub within : ℤ → Option ℤ → Result LimitError ℤ
within d none = ok d
within d (some remain) =
    if is_nonpos remain then err deadline_exceeded else if ltb_ℤ remain d then ok remain else ok d

unfoldable pub resolve_timeout : (Str → Option ℤ) → Option ℤ → Str → ℤ → Result LimitError ℤ
resolve_timeout parse_duration remain text fallback =
    asked_timeout parse_duration text fallback >>= λ d. within d remain

-- ===== src/Connector/Kafka/Params.antt =====
-- connector/kafka/params.go. Formatting and parsing of numbers are parameters.
pub mod Limited
use ops_mcp.Prelude.{
  Str, Option, Dict, ℤ, ℕ, [], Result, Bool, pos, if◌then◌else◌, some, str, ok, is_empty, is_nonpos,
  ltb_ℤ, trim_space, map, ◌&&◌, pos_part, none, lower_byte, true, ◌==◌, false, str_eq,
}
use ops_mcp.Model.Errors.{AppError, must_be, missing_param, invalid}
use ops_mcp.Prelude.Value.{
  Value, null, bool, int, int32, int64, float32, float64, string, strings, array, object, any_map,
  given,
}

-- fmt.Sprint, int of a float, and strconv.Atoi.
pub record Numbers : Type 0 where
  pub sprint : Value → Str
  pub of_float32 : ℕ → ℤ
  pub of_float64 : ℕ → ℤ
  pub atoi : Str → Option ℤ

module _ (numbers : Numbers) where
  abbrev pub string_of : Option Value → Str
  string_of none = []
  string_of (some (string s)) = trim_space s
  string_of (some v) = trim_space (numbers.sprint v)

  unfoldable pub param_string : Dict Value → Str → Str
  param_string params key = string_of (given key params)

  abbrev pub atoi_or_invalid : Str → Option ℤ → Result AppError (Option ℤ)
  atoi_or_invalid key none = invalid (must_be key (str "integer"))
  atoi_or_invalid key (some n) = ok (some n)

  -- The number, or `none` where there is none or only a blank.
  abbrev pub int_of : Str → Option Value → Result AppError (Option ℤ)
  int_of key none = ok none
  int_of key (some (int n)) = ok (some n)
  int_of key (some (int32 n)) = ok (some n)
  int_of key (some (int64 n)) = ok (some n)
  int_of key (some (float64 f)) = ok (some (numbers.of_float64 f))
  int_of key (some (float32 f)) = ok (some (numbers.of_float32 f))
  int_of key (some (string s)) =
      if is_empty (trim_space s) then ok none else atoi_or_invalid key (numbers.atoi (trim_space s))
  int_of key (some _) = invalid (must_be key (str "integer"))

  unfoldable pub param_int : Dict Value → Str → Result AppError (Option ℤ)
  param_int params key = int_of key (given key params)

  unfoldable pub require_string : Dict Value → Str → Result AppError Str
  unfolding param_string
  require_string params key =
      let s = param_string params key in if is_empty s then invalid (missing_param key) else ok s

-- EqualFold with a text of ASCII letters.
abbrev pub bool_of : Option Value → Bool
bool_of (some (bool b)) = b
bool_of (some (string s)) = map lower_byte (trim_space s) == str "true"
bool_of _ = false

unfoldable pub param_bool : Dict Value → Str → Bool
param_bool params key = bool_of (given key params)

abbrev pub or_zero : Option ℤ → ℤ
or_zero none = pos 0
or_zero (some n) = n

abbrev pub configured_limit : ℤ → ℤ
configured_limit n = if is_nonpos n then pos 1000 else n

abbrev pub asked_limit : ℤ → ℤ → ℤ
asked_limit limit asked = if ltb_ℤ (pos 0) asked && ltb_ℤ asked limit then asked else limit

-- How many of `n` elements are returned, and whether that is not all of them.
unfoldable pub apply_limit : ℕ → ℤ → ℤ → ℕ × Bool
apply_limit n cfg_limit req_limit =
    let limit = asked_limit (configured_limit cfg_limit) req_limit in
    if ltb_ℤ limit (pos n) then (pos_part limit, true) else (n, false)

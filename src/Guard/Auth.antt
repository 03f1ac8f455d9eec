-- ===== src/Guard/Auth.antt =====
-- api/auth.go. A header or a query parameter that is not sent is the empty text.
pub mod Access
use ops_mcp.Prelude.{
  Bool, not, ◌&&◌, ◌||◌, [], if◌then◌else◌, nat_eq, ◌==◌, length, drop, Str, str, str_eq, is_empty,
  has_prefix, trim_space,
}

pub record Request : Type 0 where
  pub method : Str
  pub path : Str
  pub authorization : Str
  pub api_key : Str
  pub token : Str

-- What the middleware does: the handlers go on, or the answer is 401.
pub data Verdict : Type 0 where
  next unauthorized : Verdict

unfoldable pub is_public_path : Str → Str → Bool
is_public_path method path =
    ((method == str "GET") || (method == str "HEAD"))
    && ((path == str "/health") || (path == str "/") || (path == str "/index.html"))

abbrev pub bearer : Str
bearer = str "Bearer "

-- Authorization first, with or without "Bearer "; then X-API-Key; then the query's token.
unfoldable pub extract_token : Request → Str
extract_token r =
    if not (is_empty r.authorization)
    then trim_space (
        if has_prefix r.authorization bearer
        then drop (length bearer) r.authorization
        else r.authorization)
    else if not (is_empty r.api_key)
    then trim_space r.api_key
    else if not (is_empty r.token)
    then trim_space r.token
    else []

-- ConstantTimeCompare is 1 exactly on equal texts.
unfoldable pub require_auth : Str → Request → Verdict
require_auth expected r =
    if is_empty expected
    then next
    else if is_public_path r.method r.path
    then next
    else let got = extract_token r in
      if is_empty got || not (got == expected) then unauthorized else next

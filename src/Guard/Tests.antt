-- ===== src/Guard/Tests.antt =====
-- The guards on small inputs.
use ops_mcp.Guard.Auth.{Request, next, require_auth}
use ops_mcp.Guard.Auth.Access.{require_auth_iff, by_bearer}
use ops_mcp.Guard.Sql.{Statement, select, trimmed, ensure_select, wrap}
use ops_mcp.Guard.Sql.Bounded.{IsCleaned, IsLimit, IsQuery, ensure_select_iff}
use ops_mcp.Prelude.{
  ◌≡◌, refl, inr, Option, some, List, [], ◌∷◌, nat_eq, ℤ, pos, Str, str, str_eq, trim_right_byte,
  trim_space, ok, ◌↔◌, ◌≢◌, ◌++◌,
}

abbrev call : Request
call = record {
  method = str "POST";
  path = str "/mcp";
  authorization = str "Bearer secret ";
  api_key = [];
  token = [];
}

abbrev one_select : Str → Option (List Statement)
one_select s = some (select ∷ [])

abbrev shown : ℤ → Str
shown n = str "10"

abbrev query : Str
query = str " SELECT 1 ; "

require_auth_example : require_auth (str "secret") call ≡ next
unfolding trim_space
require_auth_example =
    (require_auth_iff (str "secret") call).1 (inr (inr (by_bearer (str "secret ") refl)))

abbrev ran : Str
ran = str "SELECT * FROM (SELECT 1) AS _ops_mcp_q LIMIT 10"

ensure_select_example :
    (q : Str) × (limit : ℤ) × IsCleaned query q
    × IsLimit (pos 10) limit
    × ((ensure_select one_select shown query (pos 10) ≡ ok ran) ↔ (
        (trim_space query ≢ [])
        × (q ≢ [])
        × ((s : Statement) × (one_select q ≡ some (s ∷ [])) × IsQuery s)
        × (ran ≡ str "SELECT * FROM (" ++ q ++ str ") AS _ops_mcp_q LIMIT " ++ shown limit)))
ensure_select_example = ensure_select_iff one_select shown query (pos 10) ran

let_through : ensure_select one_select shown query (pos 10) ≡ ok ran
unfolding ensure_select wrap trimmed trim_right_byte trim_space
let_through = refl

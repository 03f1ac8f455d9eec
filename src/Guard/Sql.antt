-- ===== src/Guard/Sql.antt =====
-- connector/sqlguard/sqlguard.go. The SQL parser is a parameter: the statements of a text, each
-- with what it is, or no result when the text does not parse. `decimal` is the printing of %d.
pub mod Bounded
use ops_mcp.Prelude.{
  ◌>>=◌, ◌>>◌, ◌*◌, Bool, true, false, not, Option, none, some, List, [], ◌∷◌, ◌++◌, if◌then◌else◌,
  ℤ, pos, is_nonpos, Str, str, is_empty, trim_right_byte, trim_space, Result, ok, err, refuse,
}

pub data Statement : Type 0 where
  select set_operation other_statement : Statement

pub data SqlError : Type 0 where
  sql_required parse_error empty_sql several_statements not_select : SqlError

abbrev pub is_select : Statement → Bool
is_select select = true
is_select set_operation = true
is_select other_statement = false

abbrev pub single_select : Option (List Statement) → Result SqlError (Unit {0})
single_select none = err parse_error
single_select (some []) = err empty_sql
single_select (some (s ∷ [])) = refuse (not (is_select s)) not_select
single_select (some (s ∷ t ∷ ts)) = err several_statements

-- The text that is parsed and wrapped: no space around it, and no `;` at its end.
unfoldable pub trimmed : Str → Str
trimmed sql = trim_space (trim_right_byte b';' (trim_space sql))

abbrev pub limit_of : ℤ → ℤ
limit_of max_limit = if is_nonpos max_limit then pos 1000 else max_limit

module _ (parse : Str → Option (List Statement)) (decimal : ℤ → Str) where
  unfoldable pub wrap : Str → ℤ → Str
  wrap query limit = str "SELECT * FROM (" ++ query ++ str ") AS _ops_mcp_q LIMIT " ++ decimal limit

  unfoldable pub ensure_select : Str → ℤ → Result SqlError Str
  ensure_select sql max_limit = do
    refuse (is_empty (trim_space sql)) sql_required
    refuse (is_empty (trimmed sql)) sql_required
    single_select (parse (trimmed sql))
    ok (wrap (trimmed sql) (limit_of max_limit))

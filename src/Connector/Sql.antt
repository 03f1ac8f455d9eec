-- ===== src/Connector/Sql.antt =====
-- connector/dbutil, connector/mysql and connector/postgres, on database/sql as a parameter.
pub mod Guarded
mod Tests
use ops_mcp.Prelude.{
  Str, List, Option, ℤ, str, ℕ, Result, if◌then◌else◌, pos, ◌++◌, ok, ◌>>=◌, is_nonpos, is_empty,
  ◌==◌, some, ◌∷◌, length, err, str_eq, map, none, [],
}
use ops_mcp.Config.Lookup.{get_database}
use ops_mcp.Config.Manager.{Manager}
use ops_mcp.Guard.Sql.{
  SqlError, sql_required, parse_error, empty_sql, several_statements, not_select, Statement,
  ensure_select,
}
use ops_mcp.Model.Database.{Database}
use ops_mcp.Model.Errors.{
  AppError, caused, not_found, must_be, text, invalid, connector_failed, refuse_invalid, result_of,
}
use ops_mcp.Prelude.Value.{Value, string}

pub record QueryRequest : Type 0 where
  pub database : Str
  pub sql : Str
  pub args : List Value

pub record QueryResult : Type 0 where
  pub columns : List Str
  pub rows : List (List Value)
  pub row_count : ℕ

-- A value that a driver scans: bytes, a time in the text of RFC 3339, or any other.
pub data Cell : Type 0 where
  bytes time_text : Str → Cell
  plain : Value → Cell

unfoldable pub normalize_value : Cell → Value
normalize_value (bytes s) = string s
normalize_value (time_text s) = string s
normalize_value (plain v) = v

-- The rows of a query: the columns, each row or the error of its Scan, and Err at the end.
pub record Rows : Type 0 where
  pub columns : Result Str (List Str)
  pub scanned : List (Result Str (List Cell))
  pub final : Option Str

-- An open database: Ping, QueryContext, and QueryRowContext with its Scan.
pub record Handle : Type 0 where
  pub ping : Option Str
  pub query : Str → List Value → Result Str Rows
  pub query_row : Str → Result Str Str

abbrev pub unless_error : Option Str → Result Str (Unit {0})
unless_error none = ok tt
unless_error (some e) = err e

-- The loop over rows.Next.
unfoldable pub scan_rows : List (Result Str (List Cell)) → Result Str (List (List Value))
unfolding normalize_value
scan_rows [] = ok []
scan_rows (r ∷ rs) =
    let rest = scan_rows rs in r >>= λ cells. rest >>= λ out. ok (map normalize_value cells ∷ out)

unfoldable pub collect_rows : Rows → Result Str QueryResult
unfolding scan_rows
collect_rows rows = rows.columns >>= λ cols. scan_rows rows.scanned >>= λ out.
    unless_error rows.final >>= λ fine.
    ok (record { columns = cols; rows = out; row_count = length out })

-- Query of dbutil.
unfoldable pub query : Handle → Str → List Value → Result Str QueryResult
unfolding collect_rows
query db sql args = db.query sql args >>= collect_rows

-- What the drivers need of a data source; the text of it is theirs.
pub record MysqlConfig : Type 0 where
  pub user : Str
  pub passwd : Str
  pub addr : Str
  pub db_name : Str

pub record PostgresUrl : Type 0 where
  pub username : Str
  pub password : Str
  pub host : Str
  pub path : Str
  pub sslmode : Str

pub record Drivers : Type 0 where
  pub open_db : Str → Str → Result Str Handle
  pub decimal : ℤ → Str
  pub join_host_port : Str → ℤ → Str
  pub format_dsn : MysqlConfig → Str
  pub url_string : PostgresUrl → Str
  pub parse : Str → Option (List Statement)

abbrev pub port_or : ℤ → ℤ → ℤ
port_or default port = if is_nonpos port then default else port

-- The error of EnsureSelect as text, without what the parser says after "parse sql".
abbrev pub sql_message : SqlError → Str
sql_message sql_required = str "sql is required"
sql_message parse_error = str "parse sql"
sql_message empty_sql = str "empty sql"
sql_message several_statements = str "only a single SQL statement is allowed"
sql_message not_select = str "only SELECT statements are allowed"

abbrev pub or_invalid_sql : Result SqlError Str → Result AppError Str
or_invalid_sql (ok safe) = ok safe
or_invalid_sql (err e) = invalid (text (sql_message e))

-- A connector's name, the type of its databases, its version query and its data sources.
pub record Dialect : Type 0 where
  pub name : Str
  pub db_type : Str
  pub version_sql : Str
  pub dsn : Database → Str

module _ (d : Drivers) where
  unfoldable pub mysql_dsn : Database → Str
  mysql_dsn db = d.format_dsn (record {
    user = db.connection.username;
    passwd = db.connection.password;
    addr = d.join_host_port db.connection.host (port_or (pos 3306) db.connection.port);
    db_name = db.connection.database;
  })

  unfoldable pub net_host : Str → ℤ → Str
  net_host host port = host ++ (str ":" ++ d.decimal (port_or (pos 5432) port))

  unfoldable pub postgres_dsn : Database → Str
  unfolding net_host
  postgres_dsn db = d.url_string (record {
    username = db.connection.username;
    password = db.connection.password;
    host = net_host db.connection.host db.connection.port;
    path = str "/" ++ db.connection.database;
    sslmode = if is_empty db.connection.sslmode then str "disable" else db.connection.sslmode;
  })

  abbrev pub mysql : Dialect
  mysql = record {
    name = str "mysql";
    db_type = str "mysql";
    version_sql = str "SELECT VERSION()";
    dsn = mysql_dsn;
  }

  abbrev pub postgres : Dialect
  postgres = record {
    name = str "postgres";
    db_type = str "postgresql";
    version_sql = str "SELECT version()";
    dsn = postgres_dsn;
  }

  -- OpenPing of dbutil. A handle whose ping fails is closed.
  unfoldable pub open_ping : Str → Str → Result Str Handle
  open_ping driver dsn = d.open_db driver dsn >>= λ db. unless_error db.ping >>= λ alive. ok db

  abbrev pub or_connector_error {ℓ} : {A : Type ℓ} → Str → Result Str A → Result AppError A
  or_connector_error step (ok a) = ok a
  or_connector_error step (err cause) = connector_failed (caused step cause)

  module _ (cfg : Manager) (dialect : Dialect) where
    abbrev pub of_type : Str → Database → Result AppError Database
    of_type name db =
        if db.db_type == dialect.db_type then ok db else invalid (must_be name dialect.db_type)

    -- lookup of both connectors.
    unfoldable pub lookup_database : Str → Result AppError Database
    lookup_database name =
        if is_empty name
        then invalid (text (str "database is required"))
        else elim (get_database cfg name) [
          | err e ↦ connector_failed (not_found (str "database") name)
          | ok db ↦ of_type name db
        ]

    abbrev pub guarded : Str → ℤ → Result AppError Str
    guarded sql limit = or_invalid_sql (ensure_select d.parse d.decimal sql limit)

    -- Up to the statement: the open database and the text that it is asked.
    unfoldable pub prepare_query : QueryRequest → Result AppError (Handle × Str)
    unfolding lookup_database open_ping
    prepare_query req = do
      db ← lookup_database req.database
      safe ← guarded req.sql db.limit
      handle ←
          or_connector_error (dialect.name ++ str " dial") (open_ping dialect.name (dialect.dsn db))
      ok (handle, safe)

    abbrev pub ask : List Value → Handle × Str → Result AppError QueryResult
    ask args (handle, safe) =
        or_connector_error (dialect.name ++ str " query") (query handle safe args)

    -- Query of both connectors.
    unfoldable pub run_query : QueryRequest → Result AppError QueryResult
    unfolding prepare_query query
    run_query req = prepare_query req >>= ask req.args

    -- Version of both connectors, with QueryVersion of dbutil.
    unfoldable pub version : Str → Result AppError Str
    unfolding lookup_database open_ping
    version name = do
      db ← lookup_database name
      handle ←
          or_connector_error (dialect.name ++ str " dial") (open_ping dialect.name (dialect.dsn db))
      or_connector_error (str "version query") (handle.query_row dialect.version_sql)

  unfoldable pub mysql_query : Manager → QueryRequest → Result AppError QueryResult
  unfolding run_query
  mysql_query cfg = run_query cfg mysql

  unfoldable pub postgres_query : Manager → QueryRequest → Result AppError QueryResult
  unfolding run_query
  postgres_query cfg = run_query cfg postgres

  unfoldable pub mysql_version : Manager → Str → Result AppError Str
  unfolding version
  mysql_version cfg = version cfg mysql

  unfoldable pub postgres_version : Manager → Str → Result AppError Str
  unfolding version
  postgres_version cfg = version cfg postgres

-- ===== src/Connector/Sql/Tests.antt =====
-- A query of a configured MySQL database with one row.
use ops_mcp.Prelude.{
  str, [], ok, none, ◌≡◌, lookup, pos, some, err, str_beq, ◌∷◌, true, ◌⊎◌, trim_space, refl, Str,
  trim_right_byte, has_prefix,
}
use ops_mcp.Config.Lookup.{find, get_database}
use ops_mcp.Config.Manager.{Manager, start}
use ops_mcp.Config.Samples.{app_file}
use ops_mcp.Connector.Sql.{
  Handle, Rows, bytes, Drivers, QueryRequest, mysql, prepare_query, run_query, ask, postgres_query,
  mysql_dsn,
}
use ops_mcp.Connector.Sql.Guarded.{IsGuarded, Answers, run_query_lem}
use ops_mcp.Guard.Sql.{select, trimmed, ensure_select, wrap}
use ops_mcp.Model.Database.{Database}
use ops_mcp.Model.Errors.{AppError, invalid, must_be}

abbrev orders : Database
orders = record {
  name = str "orders";
  description = [];
  labels = [];
  db_type = str "mysql";
  connection = record {
    host = str "db";
    port = pos 0;
    username = [];
    password = [];
    database = [];
    sslmode = [];
  };
  readonly = true;
  limit = pos 5;
}

abbrev bare : Manager
bare = start [] app_file

abbrev manager : Manager
manager = record bare {
  resources = record bare.resources { databases = (str "orders", orders) ∷ [] };
}

abbrev one_row : Rows
one_row = record {
  columns = ok (str "n" ∷ []);
  scanned = ok (bytes (str "7") ∷ []) ∷ [];
  final = none;
}

abbrev opened : Handle
opened = record { ping = none; query = λ sql args. ok one_row; query_row = λ sql. ok (str "8.0") }

abbrev drivers : Drivers
drivers = record {
  open_db = λ driver dsn. ok opened;
  decimal = λ n. str "5";
  join_host_port = λ host port. host;
  format_dsn = λ c. c.addr;
  url_string = λ u. u.host;
  parse = λ s. some (select ∷ []);
}

abbrev request : QueryRequest
request = record { database = str "orders"; sql = str "SELECT 7;"; args = [] }

run_query_example :
    ((e : AppError) × (prepare_query drivers manager (mysql drivers) request ≡ err e)
      × (run_query drivers manager (mysql drivers) request ≡ err e))
    ⊎ ((k : Handle) × (safe : Str) × (prepare_query drivers manager (mysql drivers) request
          ≡ ok (k, safe))
        × IsGuarded drivers manager (mysql drivers) request safe
        × (run_query drivers manager (mysql drivers) request
            ≡ ask drivers manager (mysql drivers) [] (k, safe))
        × Answers drivers manager
            (mysql drivers)
            request
            k
            safe
            (run_query drivers manager (mysql drivers) request))
run_query_example = run_query_lem drivers manager (mysql drivers) request

wrong_type :
    postgres_query drivers manager request ≡ invalid (must_be (str "orders") (str "postgresql"))
unfolding postgres_query get_database find lookup str_beq
wrong_type = refl

sent :
    prepare_query drivers manager (mysql drivers) request
    ≡ ok (opened, str "SELECT * FROM (SELECT 7) AS _ops_mcp_q LIMIT 5")
unfolding prepare_query get_database find lookup str_beq ensure_select trimmed wrap trim_space
    trim_right_byte has_prefix mysql_dsn
sent = refl

-- ===== src/Model/Database.antt =====
-- model/database.go.
use ops_mcp.Prelude.{Bool, Str, ℤ, Dict}

pub record DbConnection : Type 0 where
  pub host : Str
  pub port : ℤ
  pub username : Str
  pub password : Str
  pub database : Str
  pub sslmode : Str

pub record Database : Type 0 where
  pub name : Str
  pub description : Str
  pub labels : Dict Str
  pub db_type : Str
  pub connection : DbConnection
  pub readonly : Bool
  pub limit : ℤ

pub record DbConnectionSummary : Type 0 where
  pub host : Str
  pub port : ℤ
  pub username : Str
  pub database : Str
  pub sslmode : Str

pub record DatabaseSummary : Type 0 where
  pub name : Str
  pub description : Str
  pub labels : Dict Str
  pub db_type : Str
  pub connection : DbConnectionSummary
  pub readonly : Bool
  pub limit : ℤ

-- ToSummary of a Database.
unfoldable pub database_summary : Database → DatabaseSummary
database_summary d = record {
  name = d.name;
  description = d.description;
  labels = d.labels;
  db_type = d.db_type;
  connection = record {
    host = d.connection.host;
    port = d.connection.port;
    username = d.connection.username;
    database = d.connection.database;
    sslmode = d.connection.sslmode;
  };
  readonly = d.readonly;
  limit = d.limit;
}

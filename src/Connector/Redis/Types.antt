-- ===== src/Connector/Redis/Types.antt =====
-- The requests and results of connector/redis/redis.go.
use ops_mcp.Prelude.Value.{Value}
use ops_mcp.Prelude.{ℕ, Bool, Option, List, Str, ℤ, Dict}

pub record PingRequest : Type 0 where
  pub redis : Str
  pub db : ℤ

pub record PingResult : Type 0 where
  pub result : Str

pub record InfoRequest : Type 0 where
  pub redis : Str
  pub db : ℤ
  pub section : Str

pub record InfoResult : Type 0 where
  pub info : Str

pub record RoleRequest : Type 0 where
  pub redis : Str
  pub db : ℤ

pub record RoleResult : Type 0 where
  pub role : List Value

pub record DbsizeRequest : Type 0 where
  pub redis : Str
  pub db : ℤ

pub record DbsizeResult : Type 0 where
  pub dbsize : ℤ

pub record ScanRequest : Type 0 where
  pub redis : Str
  pub db : ℤ
  pub cursor : ℕ
  pub pattern : Str
  pub limit : ℤ

pub record ScanResult : Type 0 where
  pub cursor : ℕ
  pub keys : List Str
  pub count : ℤ
  pub truncated : Bool

pub record KeyRequest : Type 0 where
  pub redis : Str
  pub db : ℤ
  pub key : Str

pub record TypeResult : Type 0 where
  pub key : Str
  pub key_type : Str

pub record TtlResult : Type 0 where
  pub key : Str
  pub ttl : ℤ

pub record ExistsResult : Type 0 where
  pub key : Str
  pub exists : Bool

pub record GetResult : Type 0 where
  pub key : Str
  pub value : Option Str

pub record MemoryUsageResult : Type 0 where
  pub key : Str
  pub bytes : Option ℤ

pub record ObjectEncodingResult : Type 0 where
  pub key : Str
  pub encoding : Option Str

pub record SlowlogGetRequest : Type 0 where
  pub redis : Str
  pub db : ℤ
  pub count : ℤ

pub record SlowlogEntry : Type 0 where
  pub id : ℤ
  pub timestamp : ℤ
  pub duration : ℤ
  pub command : List Value

pub record SlowlogGetResult : Type 0 where
  pub entries : List SlowlogEntry
  pub count : ℤ

pub record ClientListRequest : Type 0 where
  pub redis : Str
  pub db : ℤ
  pub limit : ℤ

pub record ClientListResult : Type 0 where
  pub clients : List Str
  pub count : ℤ
  pub truncated : Bool

pub record ConfigGetRequest : Type 0 where
  pub redis : Str
  pub db : ℤ
  pub pattern : Str

pub record ConfigGetResult : Type 0 where
  pub config : Dict Str

pub record CardinalityResult : Type 0 where
  pub key : Str
  pub count : ℤ

pub record ZrangeSampleRequest : Type 0 where
  pub redis : Str
  pub db : ℤ
  pub key : Str
  pub limit : ℤ

pub record ZrangeSampleResult : Type 0 where
  pub key : Str
  pub members : List (Dict Value)
  pub count : ℤ
  pub truncated : Bool

pub record LrangeRequest : Type 0 where
  pub redis : Str
  pub db : ℤ
  pub key : Str
  pub start : ℤ
  pub limit : ℤ

pub record LrangeResult : Type 0 where
  pub key : Str
  pub start : ℤ
  pub values : List Str
  pub count : ℤ
  pub truncated : Bool

pub record HgetRequest : Type 0 where
  pub redis : Str
  pub db : ℤ
  pub key : Str
  pub field : Str

pub record HgetResult : Type 0 where
  pub key : Str
  pub field : Str
  pub value : Option Str

pub record HmgetRequest : Type 0 where
  pub redis : Str
  pub db : ℤ
  pub key : Str
  pub fields : List Str

pub record HmgetFieldValue : Type 0 where
  pub field : Str
  pub value : Option Str

pub record HmgetResult : Type 0 where
  pub key : Str
  pub fields : List HmgetFieldValue
  pub count : ℤ

pub record HscanRequest : Type 0 where
  pub redis : Str
  pub db : ℤ
  pub key : Str
  pub cursor : ℕ
  pub pattern : Str
  pub limit : ℤ

pub record HscanFieldValue : Type 0 where
  pub field : Str
  pub value : Str

pub record HscanResult : Type 0 where
  pub key : Str
  pub cursor : ℕ
  pub fields : List HscanFieldValue
  pub count : ℤ
  pub truncated : Bool

-- ===== src/Openapi/Operation.antt =====
-- operation.go.
use ops_mcp.Prelude.Value.{Value}
use ops_mcp.Prelude.{Bool, Option, List, nat_eq, Str, str_eq, Dict}

pub record Parameter : Type 0 where
  pub name : Str
  pub location : Str
  pub required : Bool
  pub description : Str
  pub schema : Dict Value

pub record RequestBody : Type 0 where
  pub required : Bool
  pub expand_object : Bool
  pub properties : Dict Value
  pub required_props : List Str
  pub body_schema : Dict Value

pub record Operation : Type 0 where
  pub api_name : Str
  pub operation_id : Str
  pub method : Str
  pub path : Str
  pub tags : List Str
  pub summary : Str
  pub description : Str
  pub parameters : List Parameter
  pub request_body : Option RequestBody
  pub skip_reason : Str

-- ===== src/Connector/Snmp/Types.antt =====
-- The data of connector/snmp/snmp.go, and what it uses of gosnmp, a third-party library.
use ops_mcp.Config.Manager.{Manager}
use ops_mcp.Model.Snmp.{SnmpAuth, SnmpDevice}
use ops_mcp.Prelude.Value.{Value}
use ops_mcp.Prelude.{ℕ, Bool, Option, List, nat_eq, ℤ, Str, str_eq, Result}

-- gosnmp.Asn1BER, as far as the connector tells its types apart.
pub data PduType : Type 0 where
  octet_string object_identifier null_type no_such_object : PduType
  no_such_instance end_of_mib_view : PduType
  other_type : ℕ → PduType

-- A Go value: []byte, a string or another one.
pub data GoValue : Type 0 where
  raw_bytes : Str → GoValue
  go_string : Str → GoValue
  another : Value → GoValue

pub record Pdu : Type 0 where
  pub name : Str
  pub pdu_type : PduType
  pub value : GoValue

pub record Var : Type 0 where
  pub oid : Str
  pub type_name : Str
  pub value : Option GoValue

pub record SnmpResult : Type 0 where
  pub device : Str
  pub vars : List Var
  pub truncated : Bool
  pub count : ℤ

pub record GetRequest : Type 0 where
  pub device : Str
  pub oids : List Str

pub record WalkRequest : Type 0 where
  pub device : Str
  pub oid : Str
  pub max_oids : ℤ
  pub max_repetitions : ℤ

-- The timeout is in nanoseconds.
pub record DeviceSettings : Type 0 where
  pub timeout : ℤ
  pub retries : ℤ
  pub max_repetitions : ℕ
  pub walk_max_oids : ℤ

-- What the callback of a walk keeps: the variables, and whether it stopped the walk.
abbrev pub Walked : Type 0
Walked = List Var × Bool

abbrev pub WalkFn : Type 0
WalkFn = Pdu → Walked → Walked × Option Str

-- An open session: the answer of GET, and a walk, plain or bulk, with a callback.
pub record SnmpClient : Type 0 where
  pub get : List Str → Result Str (List Pdu)
  pub walk : Bool → Str → WalkFn → Walked → Walked × Option Str

-- ctx.Err() at the callback after that many variables, and after the walk.
pub record Context : Type 0 where
  pub at_call : ℕ → Option Str
  pub at_end : Option Str

-- The select of `acquire`: a free slot, or the context ends before there is one.
pub data Select : Type 0 where
  slot_free : Select
  cancelled : Str → Select

-- The manager; the connecting of gosnmp; Asn1BER.String, fmt.Sprint, the %d of an int and
-- time.ParseDuration.
pub record Snmp : Type 0 where
  pub cfg : Manager
  pub connect : SnmpDevice → SnmpAuth → DeviceSettings → Result Str SnmpClient
  pub type_name : PduType → Str
  pub show : GoValue → Str
  pub decimal : ℤ → Str
  pub parse_duration : Str → Option ℤ

-- ===== src/Model/Host.antt =====
-- model/host.go.
use ops_mcp.Prelude.{Str, ℤ, Dict}

pub record HostAddress : Type 0 where
  pub host : Str
  pub port : ℤ

pub record HostAuth : Type 0 where
  pub auth_type : Str
  pub username : Str
  pub password : Str
  pub private_key : Str
  pub private_key_file : Str

pub record Host : Type 0 where
  pub name : Str
  pub description : Str
  pub labels : Dict Str
  pub address : HostAddress
  pub auth : HostAuth

pub record HostSummary : Type 0 where
  pub name : Str
  pub description : Str
  pub labels : Dict Str
  pub address : HostAddress
  pub auth_type : Str
  pub username : Str

-- ToSummary of a Host.
unfoldable pub host_summary : Host → HostSummary
host_summary h = record {
  name = h.name;
  description = h.description;
  labels = h.labels;
  address = h.address;
  auth_type = h.auth.auth_type;
  username = h.auth.username;
}

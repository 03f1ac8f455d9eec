-- ===== src/Model/Command.antt =====
-- model/command.go.
use ops_mcp.Prelude.{List, Str}

pub record Command : Type 0 where
  pub name : Str
  pub description : Str
  pub paths : List Str
  pub path : Str

pub record CommandSummary : Type 0 where
  pub name : Str
  pub description : Str
  pub path : Str

-- ToSummary of a Command.
unfoldable pub command_summary : Command → CommandSummary
command_summary c = record { name = c.name; description = c.description; path = c.path }

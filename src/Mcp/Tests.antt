-- ===== src/Mcp/Tests.antt =====
-- Requests to a server with one plugin and no API tool.
use ops_mcp.Mcp.Protocol.{Codec, Request, decode_id}
use ops_mcp.Mcp.Server.{Surroundings, handle, handle_method, tools_call}
use ops_mcp.Mcp.Server.Replies.{IsError, IsVersion2}
use ops_mcp.Mcp.Server.Answers.{Handled, handle_lem}
use ops_mcp.Mcp.Server.Dispatch.{IsApart, EndsAt, serving, listed_name, tools_call_lem}
use ops_mcp.Mcp.Server.{listed}
use ops_mcp.Model.Plugin.{PluginMeta}
use ops_mcp.Openapi.Registry.Load.{Registry}
use ops_mcp.Plugins.Manager.{PluginManager}
use ops_mcp.Prelude.{
  ◌≡◌, refl, ◌⊎◌, Option, none, some, [], ◌∷◌, map, Distinct, pos, negsuc, str, str_beq, str_eq, ok,
  nat_eq, if◌then◌else◌, ◌==◌,
}
use ops_mcp.Prelude.Value.{null, string, object, to_fields}

abbrev uptime : PluginMeta
uptime = record {
  name = str "uptime";
  version = str "1";
  description = str "d";
  plugin_type = str "ssh";
  target_type = str "host";
  input = [];
  runtime = str "javascript";
  timeout = [];
  path = [];
  script = str "main";
}

abbrev manager : PluginManager
manager = record { plugins_dir = str "plugins"; plugins = (str "uptime", uptime) ∷ [] }

abbrev no_tools : Registry
no_tools = record { tools = []; by_api = [] }

abbrev names_apart : IsApart manager no_tools
names_apart = record {
  found = uptime ∷ [];
  tools = [];
  plugins_bound = refl;
  tools_bound = refl;
  plugins_distinct = (elim [ ], tt);
  tools_distinct = tt;
  apart = λ n h t. elim t [ ];
}

-- A request is its method, a call its name, and a result is not written out.
abbrev codec : Codec
codec = record {
  request = λ raw.
      if raw == []
      then none
      else some (record { jsonrpc = str "2.0"; id = str "1"; method = raw; params = str "uptime" });
  protocol_version = λ p. none;
  call_params = λ p. some (record { name = p; arguments = [] });
  value = λ s. some (string s);
  marshal = λ r. [];
}

abbrev around : Surroundings
around = record {
  codec = codec;
  parse_duration = λ s. none;
  run = λ script args limit. ok (string script);
  default_timeout = pos 5;
  outside = record {
    sprint = λ v. [];
    get_api = λ n. none;
    parse_duration = λ s. none;
    default_timeout = pos 5;
    http_do = λ r. ok null;
  };
}

tools_call_example :
    Distinct (map listed_name (listed (serving manager no_tools)))
    × EndsAt around manager no_tools
        (record { name = str "uptime"; arguments = [] })
        (tools_call around (serving manager no_tools) (str "uptime"))
tools_call_example =
    tools_call_lem around manager no_tools names_apart (str "uptime")
      (record { name = str "uptime"; arguments = [] }) refl

handle_example :
    (◌≡◌ {A = Option Request} (codec.request (str "reboot")) none
      × (handle around (serving manager no_tools) (str "reboot")
          ≡ some (record {
            jsonrpc = str "2.0";
            id = null;
            result = none;
            error =
                some
                  (record { code = negsuc 32699; message = str "parse error"; error_data = null });
          })))
    ⊎ ((req : Request) × (codec.request (str "reboot") ≡ some req)
        × (((¬ IsVersion2 req)
              × IsError codec req.id
                  (negsuc 32599)
                  (str "invalid request: jsonrpc must be 2.0")
                  (handle around (serving manager no_tools) (str "reboot")))
            ⊎ (IsVersion2 req
                × Handled around
                    (serving manager no_tools)
                    req
                    (handle around (serving manager no_tools) (str "reboot")))))
handle_example = handle_lem around (serving manager no_tools) (str "reboot")

-- A notification of a known method is answered, with a null id.
ping_answered :
    handle_method around
      (serving manager no_tools)
      (record { jsonrpc = []; id = []; method = str "ping"; params = [] })
    ≡ some (record {
      jsonrpc = str "2.0";
      id = null;
      result = some (object (to_fields []));
      error = none;
    })
unfolding handle_method str_beq decode_id
ping_answered = refl

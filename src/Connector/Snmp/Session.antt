-- ===== src/Connector/Snmp/Session.antt =====
-- The settings and the opening of a device, the slots, and Get of connector/snmp/snmp.go.
pub mod Settings
use ops_mcp.Config.Lookup.{get_snmp_device, resolve_snmp_auth}
use ops_mcp.Connector.Snmp.Types.{
  octet_string, object_identifier, null_type, no_such_object, no_such_instance, end_of_mib_view,
  other_type, GoValue, raw_bytes, go_string, another, Pdu, Var, SnmpResult, GetRequest,
  DeviceSettings, SnmpClient, Select, slot_free, cancelled, Snmp,
}
use ops_mcp.Connector.Snmp.Usm.{to_uint}
use ops_mcp.Model.Errors.{AppError, caused, not_found, invalid, refuse_invalid, connector_failed}
use ops_mcp.Model.Snmp.{SnmpDevice}
use ops_mcp.Prelude.{
  ◌>>◌, ◌>>=◌, ℕ, suc, ◌-◌, Bool, false, Option, none, some, List, [], ◌∷◌, map, arith, ltb,
  if◌then◌else◌, HasEq, nat_eq, length, is_nil, ℤ, pos, ltb_ℤ, is_nonpos, Str, str, str_eq,
  is_empty, trim_space, Result, ok, err,
}

unfoldable pub normalize_oids : List Str → List Str
normalize_oids [] = []
normalize_oids (o ∷ os) =
    if is_empty (trim_space o) then normalize_oids os else trim_space o ∷ normalize_oids os

-- The buffered channel of 32 slots, by how many are taken: a send goes ahead when one is free.
unfoldable pub acquire : Select → ℕ → Result AppError (Unit {0}) × ℕ
acquire slot_free held = (ok tt, suc held)
acquire (cancelled e) held = (connector_failed (caused (str "snmp") e), held)

abbrev pub release : ℕ → ℕ
release held = held - 1

-- The rest of an operation, with the slot given back at its end.
abbrev pub with_slot {ℓ} :
    {A : Type ℓ} → Result AppError (Unit {0}) × ℕ → Result AppError A → Result AppError A × ℕ
with_slot (err e, held) out = (err e, held)
with_slot (ok done, held) out = (out, release held)

abbrev pub or_default : ℤ → Option ℤ → ℤ
or_default fallback none = fallback
or_default fallback (some v) = v

abbrev pub positive_or : ℤ → Option ℤ → ℤ
positive_or fallback none = fallback
positive_or fallback (some v) = if is_nonpos v then fallback else v

-- time.ParseDuration with 5 seconds for a text that it does not read or that is not positive.
abbrev pub duration_or_5s : Option ℤ → ℤ
duration_or_5s none = pos 5000000000
duration_or_5s (some d) = if is_nonpos d then pos 5000000000 else d

abbrev pub vars_result : Str → List Var → Bool → SnmpResult
vars_result name vars truncated = record {
  device = name;
  vars = vars;
  truncated = truncated;
  count = pos (length vars);
}

abbrev pub check_get : GetRequest → Result AppError (Unit {0})
check_get req = do
  refuse_invalid (is_empty (trim_space req.device)) (str "snmp: device is required")
  refuse_invalid (is_nil (normalize_oids req.oids)) (str "snmp: oids is required")
  refuse_invalid (ltb 64 (length (normalize_oids req.oids))) (str "snmp: at most 64 oids per get")

module _ (c : Snmp) where
  unfoldable pub pdu_value : Pdu → Option GoValue
  pdu_value pdu = elim pdu.pdu_type [
    | octet_string ↦ elim pdu.value [
      | raw_bytes b ↦ some (go_string b)
      | go_string s ↦ some (go_string s)
      | another v ↦ some (another v)
    ]
    | object_identifier ↦ elim pdu.value [
      | go_string s ↦ some (go_string s)
      | raw_bytes b ↦ some (go_string (c.show (raw_bytes b)))
      | another v ↦ some (go_string (c.show (another v)))
    ]
    | null_type ↦ none
    | no_such_object ↦ none
    | no_such_instance ↦ none
    | end_of_mib_view ↦ none
    | other_type n ↦ some pdu.value
  ]

  unfoldable pub pdu_var : Pdu → Var
  pdu_var pdu = record {
    oid = pdu.name;
    type_name = c.type_name pdu.pdu_type;
    value = pdu_value pdu;
  }

  unfoldable pub resolve_settings : SnmpDevice → DeviceSettings
  resolve_settings dev =
      let defs = (c.cfg).resources.snmp_defaults in
      let retries = or_default defs.retries dev.retries in
      let walk_max = positive_or defs.walk_max_oids dev.walk_max_oids in
      record {
        timeout =
            duration_or_5s
              (c.parse_duration (if is_empty dev.timeout then defs.timeout else dev.timeout));
        retries = if ltb_ℤ retries (pos 0) then pos 0 else retries;
        max_repetitions = to_uint 32 (positive_or defs.max_repetitions dev.max_repetitions);
        walk_max_oids = if is_nonpos walk_max then pos 1000 else walk_max;
      }

  unfoldable pub find_device : Str → Result AppError SnmpDevice
  find_device name = elim (get_snmp_device c.cfg name) [
    | err e ↦ invalid (not_found (str "snmp device") name)
    | ok dev ↦ ok dev
  ]

  unfoldable pub open_device : SnmpDevice → DeviceSettings → Result AppError SnmpClient
  open_device dev settings = elim (resolve_snmp_auth c.cfg dev.name) [
    | err e ↦ invalid (not_found (str "snmp auth") dev.name)
    | ok auth ↦ elim (c.connect dev auth settings) [
      | err e ↦ connector_failed (caused dev.name e)
      | ok client ↦ ok client
    ]
  ]

  -- Get, once it has a slot.
  unfoldable pub get_open : Str → List Str → Result AppError SnmpResult
  get_open device oids = do
    dev ← find_device device
    client ← open_device dev (resolve_settings dev)
    elim (client.get oids) [
      | err e ↦ connector_failed (caused dev.name e)
      | ok pdus ↦ ok (vars_result dev.name (map pdu_var pdus) false)
    ]

  unfoldable pub get : Select → GetRequest → ℕ → Result AppError SnmpResult × ℕ
  get select req held = elim (check_get req) [
    | err e ↦ (err e, held)
    | ok done ↦
        with_slot (acquire select held) (get_open (trim_space req.device) (normalize_oids req.oids))
  ]

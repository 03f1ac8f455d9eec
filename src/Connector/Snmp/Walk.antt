-- ===== src/Connector/Snmp/Walk.antt =====
-- Walk and Bulk of connector/snmp/snmp.go.
pub mod Bounded
use ops_mcp.Connector.Snmp.Session.{
  acquire, with_slot, pdu_var, vars_result, resolve_settings, find_device, open_device,
}
use ops_mcp.Connector.Snmp.Types.{
  Pdu, Var, SnmpResult, WalkRequest, DeviceSettings, Walked, WalkFn, SnmpClient, Context, Select,
  Snmp,
}
use ops_mcp.Connector.Snmp.Usm.{to_uint}
use ops_mcp.Model.Errors.{AppError, caused, refuse_invalid, connector_failed}
use ops_mcp.Model.Snmp.{SnmpDevice}
use ops_mcp.Prelude.{
  ◌>>◌, ◌>>=◌, ℕ, ◌+◌, Bool, true, false, ◌&&◌, Option, none, some, [], ◌∷◌, ◌++◌, arith,
  if◌then◌else◌, HasEq, nat_eq, length, ℤ, pos, leb_ℤ, ltb_ℤ, Str, str, str_eq, is_empty, contains,
  trim_space, Result, ok, err,
}

abbrev pub max_of : DeviceSettings → WalkRequest → ℤ
max_of settings req =
    if ltb_ℤ (pos 0) req.max_oids && ltb_ℤ req.max_oids settings.walk_max_oids
    then req.max_oids
    else settings.walk_max_oids

abbrev pub with_repetitions : DeviceSettings → WalkRequest → DeviceSettings
with_repetitions settings req =
    if ltb_ℤ (pos 0) req.max_repetitions
    then record settings { max_repetitions = to_uint 32 req.max_repetitions }
    else settings

-- What the walk says at its end, and whether its variables are all.
abbrev pub is_sentinel : Str → Bool
is_sentinel e = contains e (str "walk truncated")

module _ (c : Snmp) (ctx : Context) where
  unfoldable pub walk_fn : ℤ → WalkFn
  walk_fn max_oids pdu (vars, truncated) = elim (ctx.at_call (length vars)) [
    | some e ↦ ((vars, truncated), some e)
    | none ↦
        if leb_ℤ max_oids (pos (length vars))
        then ((vars, true), some (str "walk truncated at " ++ c.decimal max_oids ++ str " oids"))
        else ((vars ++ pdu_var c pdu ∷ [], truncated), none)
  ]

  unfoldable pub finish : Str → Walked × Option Str → Result AppError SnmpResult
  finish name ((vars, truncated), none) = ok (vars_result name vars truncated)
  finish name ((vars, true), some e) = ok (vars_result name vars true)
  finish name ((vars, false), some e) = elim ctx.at_end [
    | some done ↦ connector_failed (caused name done)
    | none ↦
        if is_sentinel e then ok (vars_result name vars true) else connector_failed (caused name e)
  ]

  unfoldable pub walk_open :
      Bool → SnmpDevice → DeviceSettings → Str → WalkRequest → Result AppError SnmpResult
  walk_open bulk dev settings oid req = do
    client ← open_device c dev (with_repetitions settings req)
    finish dev.name (client.walk bulk oid (walk_fn (max_of settings req)) ([], false))

  abbrev pub check_walk : WalkRequest → Result AppError SnmpDevice
  check_walk req = do
    refuse_invalid (is_empty (trim_space req.device)) (str "snmp: device is required")
    refuse_invalid (is_empty (trim_space req.oid)) (str "snmp: oid is required")
    find_device c (trim_space req.device)

  unfoldable pub do_walk : Select → Bool → WalkRequest → ℕ → Result AppError SnmpResult × ℕ
  do_walk select bulk req held = elim (check_walk req) [
    | err e ↦ (err e, held)
    | ok dev ↦
        with_slot (acquire select held)
          (walk_open bulk dev (resolve_settings c dev) (trim_space req.oid) req)
  ]

  unfoldable pub walk : Select → WalkRequest → ℕ → Result AppError SnmpResult × ℕ
  walk select req held = do_walk select false req held

  unfoldable pub bulk : Select → WalkRequest → ℕ → Result AppError SnmpResult × ℕ
  bulk select req held = do_walk select true req held

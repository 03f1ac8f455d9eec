-- ===== src/Connector/Snmp/Session/Settings.antt =====
-- The bounds of the settings of connector/snmp/snmp.go.
use ops_mcp.Connector.Snmp.Session.{duration_or_5s, or_default, positive_or, resolve_settings}
use ops_mcp.Connector.Snmp.Usm.{to_uint}
use ops_mcp.Connector.Snmp.Types.{Snmp}
use ops_mcp.Model.Snmp.{SnmpDevice}
use ops_mcp.Prelude.{
  ◌^◌, ◌<◌, Option, none, some, arith, if◌then◌else◌, nat_eq, ℤ, pos, negsuc, ◌≤ℤ◌, ◌<ℤ◌, ltb_ℤ,
  is_nonpos, str_eq, is_empty,
}

duration-pos : (o : Option ℤ) → pos 0 <ℤ duration_or_5s o
duration-pos none = omega arith
duration-pos (some d) = ground arith

retries-nonneg : (r : ℤ) → pos 0 ≤ℤ (if ltb_ℤ r (pos 0) then pos 0 else r)
retries-nonneg r = ground arith

walk_max-pos : (w : ℤ) → pos 0 <ℤ (if is_nonpos w then pos 1000 else w)
walk_max-pos w = ground arith

to_uint-below : (a : ℤ) → to_uint 32 a < 2 ^ 32
to_uint-below (pos n) = omega arith
to_uint-below (negsuc n) = omega arith

-- Whatever snmp.yaml says, the timeout of a session is positive, its number of retries is not
-- negative, the limit of a walk is positive, and its repetitions fit in 32 bits.
pub resolve_settings_lem :
    (c : Snmp) (dev : SnmpDevice)
    → (pos 0 <ℤ (resolve_settings c dev).timeout)
      × (pos 0 ≤ℤ (resolve_settings c dev).retries)
      × (pos 0 <ℤ (resolve_settings c dev).walk_max_oids)
      × ((resolve_settings c dev).max_repetitions < 2 ^ 32)
unfolding resolve_settings
resolve_settings_lem c dev =
    let defs = (c.cfg).resources.snmp_defaults in
    (
      duration-pos (c.parse_duration (if is_empty dev.timeout then defs.timeout else dev.timeout)),
      retries-nonneg (or_default defs.retries dev.retries),
      walk_max-pos (positive_or defs.walk_max_oids dev.walk_max_oids),
      to_uint-below (positive_or defs.max_repetitions dev.max_repetitions),
    )

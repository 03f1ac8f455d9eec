-- ===== src/Config/Manager/Parts.antt =====
-- What a complete load of the resources loaded from commands.yaml and snmp.yaml.
use ops_mcp.Config.Load.{load_hosts, load_databases, load_redis, load_kafka}
use ops_mcp.Config.Snmp.{Snmp, load_snmp}
use ops_mcp.Config.Manager.{System, Resources, load_resources}
use ops_mcp.Config.Commands.{Warning, load_apis, load_commands}
use ops_mcp.Model.Config.{AppConfig}
use ops_mcp.Prelude.{◌≡◌, ap, ◌∙◌, List, nat_eq, str_eq, ok, ok_injective, >>=-eq-ok}

abbrev pub snmp_of : Resources → Snmp
snmp_of r = (r.snmp_creds, r.snmp_devices, r.snmp_defaults)

pub load_resources-parts :
    (sys : System) (app : AppConfig) (r : Resources) (ws : List Warning)
    → load_resources sys app ≡ ok (r, ws)
    → (load_commands sys.clean sys.is_abs sys.stat sys.commands_at app.config.commands
        ≡ ok (r.commands, ws))
      × (load_snmp sys.lower sys.snmp_at app.config.snmp ≡ ok (snmp_of r))
unfolding load_resources
load_resources-parts sys app r ws h =
    let at = app.config in
    let (hosts, e0, h0) = >>=-eq-ok (load_hosts sys.hosts_at at.hosts) _ h in
    let (dbs, e1, h1) = >>=-eq-ok (load_databases sys.databases_at at.databases) _ h0 in
    let (rds, e2, h2) = >>=-eq-ok (load_redis sys.redis_at at.redis) _ h1 in
    let (kfk, e3, h3) = >>=-eq-ok (load_kafka sys.kafka_at at.kafka) _ h2 in
    let (apis, e4, h4) = >>=-eq-ok (load_apis sys.pieces sys.lookup_env sys.apis_at at.apis) _ h3 in
    let (commands, e5, h5) =
      >>=-eq-ok (load_commands sys.clean sys.is_abs sys.stat sys.commands_at at.commands) _ h4 in
    let (snmp, e6, h6) = >>=-eq-ok (load_snmp sys.lower sys.snmp_at at.snmp) _ h5 in
    (
      e5 ∙ ap (λ (p : Resources × List Warning). ok (p.0.commands, p.1)) (ok_injective h6),
      e6 ∙ ap (λ p. ok (snmp_of p.0)) (ok_injective h6),
    )

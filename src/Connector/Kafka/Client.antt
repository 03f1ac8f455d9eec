-- ===== src/Connector/Kafka/Client.antt =====
-- connector/kafka/client.go: the options of a client, and opening one.
use ops_mcp.Prelude.{
  Str, List, Option, Result, keep, if◌then◌else◌, str, to_lower, not, ok, trim_space, ◌==◌, some,
  is_empty, err, ◌∷◌, ◌||◌, ◌&&◌, map, none, str_eq, ◌>>=◌, ◌>>◌, [],
}
use ops_mcp.Config.Lookup.{LookupError, get_kafka}
use ops_mcp.Config.Manager.{Manager}
use ops_mcp.Connector.Tls.{Crypto, TlsConfig, build_kafka_tls_config}
use ops_mcp.Model.Errors.{
  AppError, caused, not_found, text, Message, invalid, connector_failed, refuse_invalid,
}
use ops_mcp.Model.Kafka.{KafkaInstance, KafkaSasl}
use ops_mcp.Connector.Kafka.Admin.{Admin}

pub data Mechanism : Type 0 where
  plain scram_sha256 scram_sha512 : Mechanism

pub record Sasl : Type 0 where
  pub mechanism : Mechanism
  pub user : Str
  pub pass : Str

pub record ClientOpts : Type 0 where
  pub brokers : List Str
  pub tls : Option TlsConfig
  pub sasl : Option Sasl

abbrev pub mechanism_of : Str → Option Mechanism
mechanism_of mech =
    if mech == str "plain"
    then some plain
    else if (mech == str "scram-sha-256") || (mech == str "scram_sha_256") || (mech == str "sha256")
    then some scram_sha256
    else if (mech == str "scram-sha-512") || (mech == str "scram_sha_512") || (mech == str "sha512")
    then some scram_sha512
    else none

-- The Kafka library: a client with its options after its first Ping, or the error of either.
pub record Kafka : Type 0 where
  pub cfg : Manager
  pub crypto : Crypto
  pub unicode_lower : Str → Str
  pub split_host_port : Str → Option Str
  pub connect : ClientOpts → Result Str Admin

abbrev pub with_mechanism : Str → Str → Str → Option Mechanism → Result AppError (Option Sasl)
with_mechanism named user pass none = invalid (not_found (str "kafka sasl mechanism") named)
with_mechanism named user pass (some m) =
    ok (some (record { mechanism = m; user = user; pass = pass }))

module _ (k : Kafka) where
  unfoldable pub sasl_mechanism : KafkaSasl → Result AppError (Option Sasl)
  sasl_mechanism cfg =
      let mech = to_lower k.unicode_lower (trim_space cfg.mechanism) in
      let user = trim_space cfg.username in
      if is_empty mech && is_empty user && is_empty cfg.password
      then ok none
      else if is_empty user
      then invalid (text (str "kafka sasl: username is required when SASL is enabled"))
      else with_mechanism cfg.mechanism user cfg.password
          (mechanism_of (if is_empty mech then str "plain" else mech))

  -- The brokers without blank ones.
  unfoldable pub seed_brokers : List Str → List Str
  seed_brokers bs = keep (λ b. not (is_empty b)) (map trim_space bs)

  abbrev pub server_name : Str → Str
  server_name broker = elim (k.split_host_port broker) [ none ↦ broker | some host ↦ host ]

  abbrev pub tls_or_invalid : Result Message (Option TlsConfig) → Result AppError (Option TlsConfig)
  tls_or_invalid (ok t) = ok t
  tls_or_invalid (err m) = invalid m

  abbrev pub opts_for : KafkaInstance → List Str → Result AppError ClientOpts
  opts_for inst [] = invalid (caused inst.name (str "connection.brokers is empty"))
  opts_for inst (b ∷ bs) = do
    tls ← tls_or_invalid (build_kafka_tls_config k.crypto (server_name b) inst.connection.tls)
    sasl ← sasl_mechanism inst.connection.sasl
    ok (record { brokers = b ∷ bs; tls = tls; sasl = sasl })

  unfoldable pub client_opts : KafkaInstance → Result AppError ClientOpts
  unfolding sasl_mechanism seed_brokers
  client_opts inst = opts_for inst (seed_brokers inst.connection.brokers)

  abbrev pub found_instance : Str → Result LookupError KafkaInstance → Result AppError KafkaInstance
  found_instance name (ok i) = ok i
  found_instance name (err e) = connector_failed (not_found (str "kafka") name)

  unfoldable pub lookup_instance : Str → Result AppError KafkaInstance
  lookup_instance name = do
    let n = trim_space name
    refuse_invalid (is_empty n) (str "kafka: kafka name is required")
    found_instance n (get_kafka k.cfg n)

  abbrev pub connected : Str → Result Str Admin → Result AppError Admin
  connected name (ok a) = ok a
  connected name (err e) = connector_failed (caused name e)

  unfoldable pub dial : Str → Result AppError (Admin × KafkaInstance)
  unfolding lookup_instance client_opts
  dial name = do
    inst ← lookup_instance name
    opts ← client_opts inst
    admin ← connected name (k.connect opts)
    ok (admin, inst)

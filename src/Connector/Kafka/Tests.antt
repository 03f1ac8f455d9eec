-- ===== src/Connector/Kafka/Tests.antt =====
-- A cluster with one topic and one sensitive setting.
use ops_mcp.Config.Manager.{Manager, start}
use ops_mcp.Config.Samples.{same, app_file}
use ops_mcp.Config.Lookup.{find, get_kafka}
use ops_mcp.Connector.Kafka.Admin.{Admin, BrokerConfigs, ConfigEntry, Partition, TopicDetail}
use ops_mcp.Connector.Kafka.Client.{
  Kafka, client_opts, dial, lookup_instance, sasl_mechanism, seed_brokers,
}
use ops_mcp.Connector.Kafka.Execute.{
  check_call, dispatch, execute_kafka, known_action, settings_result, check_required,
}
use ops_mcp.Connector.Kafka.Execute.Secret.{clusters_secrets, execute_kafka-clusters_secrets}
use ops_mcp.Connector.Kafka.Health.{
  Health, partition_health, add_partition, add_partitions, add_topics, health_of, is_healthy,
  reasons,
}
use ops_mcp.Connector.Kafka.Health.Reported.{IsAsked, IsSound, Visited, partition_health_lem}
use ops_mcp.Connector.Kafka.Params.{Numbers, param_int, param_string, require_string}
use ops_mcp.Connector.Kafka.Settings.{broker_config, broker_item, config_items}
use ops_mcp.Connector.Tls.{build_kafka_tls_config}
use ops_mcp.Model.Errors.{AppError}
use ops_mcp.Model.Kafka.{KafkaInstance}
use ops_mcp.Prelude.Sorting.{sort_by}
use ops_mcp.Prelude.Value.{Value, given, string}
use ops_mcp.Prelude.{
  [], pos, str, ok, false, lookup, Result, Dict, none, ◌∷◌, some, true, values, Bool, ◌≡◌,
  trim_space, join, ◌↔◌, err, to_lower, All, str_beq, refl, has_prefix, keep, Option, Str,
}

abbrev numbers : Numbers
numbers = record {
  sprint = λ v. [];
  of_float32 = λ f. pos f;
  of_float64 = λ f. pos f;
  atoi = λ s. none;
}

abbrev first : Partition
first = record {
  partition = pos 0;
  leader = pos 1;
  leader_epoch = pos 3;
  replicas = pos 1 ∷ pos 2 ∷ [];
  isr = pos 1 ∷ [];
  offline_replicas = [];
  error = none;
}

abbrev orders : TopicDetail
orders = record {
  topic = str "orders";
  id = [];
  is_internal = false;
  error = none;
  num_replicas = pos 2;
  partitions = first ∷ [];
}

-- A topic that the cluster does not have.
abbrev absent : TopicDetail
absent = record orders { topic = str "absent"; error = some (str "unknown topic"); partitions = [] }

abbrev secret_entry : ConfigEntry
secret_entry = record {
  key = str "password";
  value = str "hunter2";
  sensitive = true;
  source = pos 1;
}

abbrev settings : BrokerConfigs
settings = record { broker = str "1"; entries = secret_entry ∷ []; error = none }

abbrev cluster_of : TopicDetail → Admin
cluster_of d = record {
  broker_metadata = ok (record { cluster = str "c"; controller = pos 1; brokers = [] });
  list_topics = ok ((d.topic, d) ∷ []);
  metadata = λ t. ok ((d.topic, d) ∷ []);
  list_groups = ok [];
  describe_groups = λ gs. (none, none);
  lag = λ gs. ok [];
  start_offsets = λ t. ok [];
  end_offsets = λ t. ok [];
  broker_configs = λ b. ok (settings ∷ []);
}

abbrev report : Health
report = record {
  healthy = false;
  topic_count = 1;
  partition_count = 1;
  under_replicated_count = 1;
  offline_partition_count = 0;
  no_leader_count = 0;
  issues =
      record {
        topic = str "orders";
        partition = pos 0;
        leader = pos 1;
        replicas = 2;
        isr = 1;
        offline_replicas = 0;
        reason = str "under_replicated";
      }
      ∷ [];
  issue_count = 1;
}

behind : partition_health numbers (cluster_of orders) [] ≡ ok report
unfolding partition_health health_of add_topics add_partitions add_partition reasons is_healthy
    param_string given lookup values join
behind = refl

partition_health_example :
    (asked : Option Str) × (meta : Dict TopicDetail) × IsAsked [] asked
    × ((cluster_of orders).metadata asked ≡ ok meta)
    × ((false ≡ true) ↔ All (λ d. Visited [] d → All IsSound d.partitions) (values meta))
    × ((report.issues ≡ [])
        ↔ All
            (λ d. Visited [] d → All (λ p. IsSound p × (p.error ≡ none)) d.partitions)
            (values meta))
unfolding param_string given lookup
partition_health_example = partition_health_lem numbers (cluster_of orders) [] report behind

-- A topic that cannot be read is reported as healthy.
abbrev healthy_of : Result AppError Health → Bool
healthy_of (err e) = false
healthy_of (ok r) = r.healthy

unread :
    healthy_of
      (partition_health numbers (cluster_of absent) ((str "topic", string (str "absent")) ∷ []))
    ≡ true
unfolding partition_health health_of add_topics add_partitions add_partition reasons is_healthy
    param_string given lookup values join trim_space str_beq
unread = refl

abbrev events : KafkaInstance
events = record {
  name = str "events";
  description = [];
  labels = [];
  connection = record {
    brokers = str "k1:9092" ∷ [];
    sasl = record { mechanism = []; username = []; password = [] };
    tls = record {
      enabled = false;
      server_name = [];
      insecure_skip_verify = false;
      ca = [];
      ca_file = [];
      cert = [];
      cert_file = [];
      private_key = [];
      private_key_file = [];
    };
  };
  readonly = true;
  limit = pos 100;
}

abbrev manager : Manager
manager =
    let m = start [] app_file in
    record m { resources = record m.resources { kafka = (str "events", events) ∷ [] } }

abbrev kafka : Kafka
kafka = record {
  cfg = manager;
  crypto = record {
    read_file = λ p. ok p;
    base64 = λ s. ok s;
    parses_ca = λ s. true;
    check_pair = λ c k. ok tt;
  };
  unicode_lower = same;
  split_host_port = λ s. none;
  connect = λ opts. ok (cluster_of orders);
}

abbrev call : Dict Value
call = (str "kafka", string (str "events")) ∷ []

execute_kafka_example :
    execute_kafka numbers
      (clusters_secrets (λ c. str "other") numbers kafka)
      (str "broker_config")
      call
    ≡ execute_kafka numbers kafka (str "broker_config") call
execute_kafka_example =
    execute_kafka-clusters_secrets (λ c. str "other") numbers kafka (str "broker_config") call

redacted :
    execute_kafka numbers kafka (str "broker_config") call
    ≡ ok (
        settings_result (record {
          brokers =
              record {
                broker = str "1";
                configs =
                    record {
                      name = str "password";
                      value = str "[REDACTED]";
                      sensitive = true;
                      source = pos 1;
                    }
                    ∷ [];
                count = 1;
                error = none;
              }
              ∷ [];
          count = 1;
        }))
unfolding execute_kafka check_call dispatch dial known_action check_required param_string param_int
    require_string given lookup trim_space to_lower lookup_instance get_kafka find client_opts
    sasl_mechanism seed_brokers build_kafka_tls_config broker_config broker_item config_items
    str_beq has_prefix keep sort_by
redacted = refl

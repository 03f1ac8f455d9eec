-- ===== src/Model/Kafka.antt =====
-- model/kafka.go.
use ops_mcp.Prelude.{Bool, not, ◌&&◌, ◌||◌, List, Str, is_empty, ℤ, Dict}

pub record KafkaTls : Type 0 where
  pub enabled : Bool
  pub server_name : Str
  pub insecure_skip_verify : Bool
  pub ca : Str
  pub ca_file : Str
  pub cert : Str
  pub cert_file : Str
  pub private_key : Str
  pub private_key_file : Str

unfoldable pub kafka_has_client_cert : KafkaTls → Bool
kafka_has_client_cert t =
    (not (is_empty t.cert_file) || not (is_empty t.cert))
    && (not (is_empty t.private_key_file) || not (is_empty t.private_key))

unfoldable pub kafka_has_ca : KafkaTls → Bool
kafka_has_ca t = not (is_empty t.ca_file) || not (is_empty t.ca)

pub record KafkaSasl : Type 0 where
  pub mechanism : Str
  pub username : Str
  pub password : Str

pub record KafkaConnection : Type 0 where
  pub brokers : List Str
  pub sasl : KafkaSasl
  pub tls : KafkaTls

pub record KafkaInstance : Type 0 where
  pub name : Str
  pub description : Str
  pub labels : Dict Str
  pub connection : KafkaConnection
  pub readonly : Bool
  pub limit : ℤ

pub record KafkaTlsSummary : Type 0 where
  pub enabled : Bool
  pub server_name : Str
  pub insecure_skip_verify : Bool
  pub has_ca : Bool
  pub has_client_cert : Bool

pub record KafkaSaslSummary : Type 0 where
  pub mechanism : Str
  pub username : Str
  pub enabled : Bool

pub record KafkaConnectionSummary : Type 0 where
  pub brokers : List Str
  pub sasl : KafkaSaslSummary
  pub tls : KafkaTlsSummary

pub record KafkaSummary : Type 0 where
  pub name : Str
  pub description : Str
  pub labels : Dict Str
  pub connection : KafkaConnectionSummary
  pub readonly : Bool
  pub limit : ℤ

-- ToSummary of a KafkaInstance.
unfoldable pub kafka_summary : KafkaInstance → KafkaSummary
unfolding kafka_has_ca kafka_has_client_cert
kafka_summary k =
    let sasl = k.connection.sasl in
    record {
      name = k.name;
      description = k.description;
      labels = k.labels;
      connection = record {
        brokers = k.connection.brokers;
        sasl = record {
          mechanism = sasl.mechanism;
          username = sasl.username;
          enabled =
              not (is_empty sasl.username)
              || not (is_empty sasl.password)
              || not (is_empty sasl.mechanism);
        };
        tls = record {
          enabled = k.connection.tls.enabled;
          server_name = k.connection.tls.server_name;
          insecure_skip_verify = k.connection.tls.insecure_skip_verify;
          has_ca = kafka_has_ca k.connection.tls;
          has_client_cert = kafka_has_client_cert k.connection.tls;
        };
      };
      readonly = k.readonly;
      limit = k.limit;
    }

-- ===== src/Tests/Clients.antt =====
-- The theorems on configurations and constructors at concrete inputs.
use confluent_kafka_python.Base.{◌≡◌, refl, true, arith, Option, none, some, [], ◌∷◌}
use confluent_kafka_python.Base.Int.{ℤ, pos}
use confluent_kafka_python.Base.Text.{Text, codes, strcmp}
use confluent_kafka_python.Object.{Object, str, callable, dict, Entries, end, entry}
use confluent_kafka_python.World.{World, Env, producer, consumer, admin, parsed, ok, CMessage}
use confluent_kafka_python.AdminTypes.{
  NewTopic, NewPartitions, topic_richcompare, partitions_richcompare, topic_hash, partitions_hash,
}
use confluent_kafka_python.AdminTypes.Order.{richcompare-hashes}
use confluent_kafka_python.Config.{common_conf_setup}
use confluent_kafka_python.Config.Freed.{Configures, common_conf_setup-Configures}
use confluent_kafka_python.Init.{consumer_init, producer_init, admin_init}
use confluent_kafka_python.Init.Starts.{
  Starts, consumer_init-Starts, producer_init-Starts, admin_init-Starts,
}
use confluent_kafka_python.Base.Words.{sub_int}
use confluent_kafka_python.Consumer.Method.{Method}
use confluent_kafka_python.Headers.{c_string, headers_to_c}
use confluent_kafka_python.Message.{new0, with_headers}
use confluent_kafka_python.Message.Access.{headers}
use confluent_kafka_python.Message.Trip.{headers_to_c-headers}
use confluent_kafka_python.Metadata.{list_topics}
use confluent_kafka_python.Metadata.Listed.{Lists, list_topics-Lists}
use confluent_kafka_python.Tests.{started, broker, ended}

abbrev text_of : Object → Option Text
text_of (str t) = some t
text_of _ = none

-- A broker whose Python turns strs into texts.
abbrev speaking : Env
speaking = record broker { to_str = text_of }

abbrev config : Entries
config = entry (str (codes "group.id")) (str (codes "g")) (
    entry (str (codes "error_cb")) (callable 4)
      (entry (str (codes "debug")) (str (codes "cgrp")) end))

common_conf_setup-Configures_example :
    Configures consumer ended (common_conf_setup speaking consumer (dict config ∷ []) none ended)
common_conf_setup-Configures_example =
    common_conf_setup-Configures speaking consumer (dict config ∷ []) none ended (λ t. (t, refl))

consumer_init-Starts_example :
    Starts consumer true ended (consumer_init speaking (dict config ∷ []) none ended)
consumer_init-Starts_example =
    consumer_init-Starts speaking (dict config ∷ []) none ended (λ t. (t, refl)) refl

producer_init-Starts_example :
    Starts producer ended.rkqu ended (producer_init speaking (dict config ∷ []) none ended)
producer_init-Starts_example =
    producer_init-Starts speaking (dict config ∷ []) none ended (λ t. (t, refl)) refl

admin_init-Starts_example :
    Starts admin ended.rkqu ended (admin_init speaking [] (some config) ended)
admin_init-Starts_example = admin_init-Starts speaking [] (some config) ended (λ t. (t, refl)) refl

abbrev two_partitions : NewTopic
two_partitions = record {
  topic = codes "orders";
  num_partitions = pos 2;
  replication_factor = pos 1;
  replica_assignment = none;
  config = none;
}

abbrev four : NewPartitions
four = record { topic = codes "orders"; new_total_count = pos 4; replica_assignment = none }

abbrev by_length : Text → ℤ
by_length [] = pos 0
by_length (x ∷ xs) = pos x

richcompare-hashes_example :
    (topic_hash by_length two_partitions
      ≡ topic_hash by_length (record two_partitions { replication_factor = pos 3 }))
    × (partitions_hash by_length four ≡ partitions_hash by_length four)
unfolding topic_richcompare partitions_richcompare strcmp sub_int
richcompare-hashes_example =
    richcompare-hashes by_length two_partitions
      (record two_partitions { replication_factor = pos 3 }) four four (omega arith, omega arith)
      (omega arith, omega arith) (omega arith, omega arith) (omega arith, omega arith) refl refl

list_topics-Lists_example :
    Lists started (list_topics speaking (parsed (some (codes "orders"), none)) started)
list_topics-Lists_example =
    list_topics-Lists speaking (some (codes "orders")) none started refl
      (record { rk = refl; gil = refl; tls = refl })

abbrev consumed : CMessage
consumed = record {
  err = pos 0;
  error_text = [];
  topic = some (codes "orders");
  payload = some (codes "v");
  key = none;
  partition = pos 1;
  offset = pos 7;
  timestamp = pos 0;
  timestamp_type = 0;
  headers = some ((codes "trace", some (codes "x")) ∷ (codes "end", none) ∷ []);
  msgstate = none;
}

headers_to_c-headers_example :
    (o : Object) × ((headers speaking
        (with_headers (new0 speaking.err2str consumer consumed) consumed)).0
      ≡ ok o)
    × (headers_to_c speaking o started ≡ (
      ok ((codes "trace", some (codes "x")) ∷ (codes "end", none) ∷ []),
      record started { headers = 1 },
    ))
unfolding c_string
headers_to_c-headers_example =
    headers_to_c-headers speaking consumer consumed
      ((codes "trace", some (codes "x")) ∷ (codes "end", none) ∷ []) started (λ k v. refl)
      ((_, refl, refl, refl, refl), ((_, refl, refl, refl, refl), tt)) refl

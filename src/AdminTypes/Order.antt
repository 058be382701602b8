-- ===== src/AdminTypes/Order.antt =====
-- The equality of NewTopic and NewPartitions and their hashes.
use confluent_kafka_python.Base.{◌≡◌, true, some, none}
use confluent_kafka_python.Base.Int.{ℤ, pos}
use confluent_kafka_python.Base.Text.{Text}
use confluent_kafka_python.Base.Words.{IsInt}
use confluent_kafka_python.Object.{TopicPartition}
use confluent_kafka_python.KafkaError.{eq}
use confluent_kafka_python.TopicPartition.{richcompare, hash}
use confluent_kafka_python.TopicPartition.Order.{hash-richcompare}
use confluent_kafka_python.AdminTypes.{
  NewTopic, NewPartitions, topic_richcompare, partitions_richcompare, topic_hash, partitions_hash,
}

-- The TopicPartition with the same topic and number.
abbrev as_partition : Text → ℤ → TopicPartition
as_partition t n = record { topic = t; partition = n; offset = pos 0; error = none }

-- Two NewTopics with int partition counts that == calls equal have equal hashes, and so have two
-- NewPartitions.
pub richcompare-hashes :
    (hash_str : Text → ℤ) (a b : NewTopic) (p q : NewPartitions)
    → IsInt a.num_partitions
    → IsInt b.num_partitions
    → IsInt p.new_total_count
    → IsInt q.new_total_count
    → topic_richcompare a (some b) eq ≡ some true
    → partitions_richcompare p (some q) eq ≡ some true
    → (topic_hash hash_str a ≡ topic_hash hash_str b)
      × (partitions_hash hash_str p ≡ partitions_hash hash_str q)
unfolding topic_richcompare partitions_richcompare richcompare topic_hash partitions_hash hash
richcompare-hashes hash_str a b p q ha hb hp hq e f = (
  hash-richcompare hash_str (as_partition a.topic a.num_partitions)
      (as_partition b.topic b.num_partitions) ha hb e,
  hash-richcompare hash_str (as_partition p.topic p.new_total_count)
      (as_partition q.topic q.new_total_count) hp hq f,
)

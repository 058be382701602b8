-- ===== src/AdminTypes.antt =====
-- NewTopic and NewPartitions of confluent_kafka/src/AdminTypes.c.
pub mod Order
use confluent_kafka_python.Base.{ℕ, Bool, Option, none, some}
use confluent_kafka_python.Base.Int.{ℤ}
use confluent_kafka_python.Base.Text.{Text, strcmp}
use confluent_kafka_python.Base.Words.{sub_int, to_word, of_word, long_mod, long_half}
use confluent_kafka_python.Object.{Object}
use confluent_kafka_python.KafkaError.{Op}
use confluent_kafka_python.TopicPartition.{decide_op}
use Prim.Native.Nat.{bit_xor}

-- `none` of `replica_assignment` and `config` is a NULL pointer.
pub record NewTopic : Type 0 where
  pub topic : Text
  pub num_partitions : ℤ
  pub replication_factor : ℤ
  pub replica_assignment : Option Object
  pub config : Option Object

pub record NewPartitions : Type 0 where
  pub topic : Text
  pub new_total_count : ℤ
  pub replica_assignment : Option Object

-- What a comparison is with: an object of the same type, or any other. `none` of a comparison is
-- the NotImplementedError.
unfoldable pub topic_richcompare : NewTopic → Option NewTopic → Op → Option Bool
unfolding decide_op
topic_richcompare a none op = none
topic_richcompare a (some b) op =
    some (decide_op (strcmp a.topic b.topic) (sub_int a.num_partitions b.num_partitions) op)

unfoldable pub partitions_richcompare : NewPartitions → Option NewPartitions → Op → Option Bool
unfolding decide_op
partitions_richcompare a none op = none
partitions_richcompare a (some b) op =
    some (decide_op (strcmp a.topic b.topic) (sub_int a.new_total_count b.new_total_count) op)

-- NewTopic_hash and NewPartitions_hash; `hash_str` is PyObject_Hash on the topic's str.
unfoldable pub topic_hash : (Text → ℤ) → NewTopic → ℤ
topic_hash hash_str t =
    of_word long_mod long_half
      (bit_xor (to_word long_mod (hash_str t.topic)) (to_word long_mod t.num_partitions))

unfoldable pub partitions_hash : (Text → ℤ) → NewPartitions → ℤ
partitions_hash hash_str p =
    of_word long_mod long_half
      (bit_xor (to_word long_mod (hash_str p.topic)) (to_word long_mod p.new_total_count))

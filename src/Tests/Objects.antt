-- ===== src/Tests/Objects.antt =====
-- The theorems on KafkaError, TopicPartition and their conversions at concrete inputs.
use confluent_kafka_python.Base.{
  ◌++◌, ◌≡◌, refl, ◌↔◌, ◌≤◌, ◌<◌, ◌⊎◌, length, map, arith, true, false, none, some, [], ◌∷◌,
}
use confluent_kafka_python.Base.Int.{pos, negsuc}
use confluent_kafka_python.Base.Text.{Text, codes, strcmp}
use confluent_kafka_python.Base.Words.{sub_int}
use confluent_kafka_python.Object.{TopicPartition, topic_partition}
use confluent_kafka_python.KafkaError.{LibError, new_from_error, str, buffer_len}
use confluent_kafka_python.World.{ok}
use confluent_kafka_python.TopicPartition.{hash, richcompare}
use confluent_kafka_python.KafkaError.{lt, le, eq, ne, gt, ge}
use confluent_kafka_python.TopicPartition.Order.{
  richcompare-eq, richcompare-Before, hash-richcompare, richcompare_overflow, Same, Before,
}
use confluent_kafka_python.TopicPartition.Lists.{
  c_parts_to_py, py_to_c_parts, py_to_c_parts-c_parts_to_py, placed,
}
use confluent_kafka_python.KafkaError.Laws.{new_from_error_lem}
use confluent_kafka_python.Tests.{part, part_object, other_part, broker, started}

abbrev fenced : LibError
fenced = record {
  code = negsuc 143;
  string = codes "fenced";
  is_fatal = true;
  is_retriable = false;
  requires_abort = false;
}

new_from_error_lem_example :
    let k = new_from_error broker.err2str fenced in
    (k.code ≡ negsuc 143)
    × (k.fatal ≡ true)
    × (k.retriable ≡ false)
    × (k.txn_requires_abort ≡ false)
    × (((length (codes "fenced") ≤ buffer_len) × (str broker.err2str k ≡ codes "fenced"))
        ⊎ ((buffer_len < length (codes "fenced"))
            × (length (str broker.err2str k) ≡ buffer_len)
            × ((rest : Text) × (codes "fenced" ≡ str broker.err2str k ++ rest))))
new_from_error_lem_example = new_from_error_lem broker.err2str fenced

abbrev far_part : TopicPartition
far_part = record {
  topic = codes "orders";
  partition = negsuc 2147483647;
  offset = pos 0;
  error = none;
}

richcompare-eq_example :
    ((richcompare part_object (topic_partition other_part) eq ≡ some true)
      ↔ Same part_object other_part)
    × ((richcompare part_object (topic_partition other_part) ne ≡ some false)
        ↔ Same part_object other_part)
richcompare-eq_example =
    richcompare-eq part_object other_part (omega arith, omega arith) (omega arith, omega arith)

richcompare-Before_example :
    ((richcompare part_object (topic_partition other_part) lt ≡ some true)
      ↔ Before part_object other_part)
    × ((richcompare part_object (topic_partition other_part) gt ≡ some true)
        ↔ Before other_part part_object)
    × ((richcompare part_object (topic_partition other_part) le ≡ some false)
        ↔ Before other_part part_object)
    × ((richcompare part_object (topic_partition other_part) ge ≡ some false)
        ↔ Before part_object other_part)
richcompare-Before_example = richcompare-Before part_object other_part (omega arith, omega arith)

same_part : richcompare part_object (topic_partition part_object) eq ≡ some true
unfolding richcompare strcmp sub_int
same_part = refl

hash-richcompare_example : hash (λ t. pos 5) part_object ≡ hash (λ t. pos 5) part_object
hash-richcompare_example =
    hash-richcompare (λ t. pos 5) part_object part_object (omega arith, omega arith)
      (omega arith, omega arith) same_part

richcompare_overflow_example :
    (richcompare part_object (topic_partition far_part) lt ≡ some true)
    × (richcompare part_object (topic_partition far_part) gt ≡ some false)
richcompare_overflow_example =
    richcompare_overflow part_object far_part (omega arith, omega arith) (omega arith, omega arith)
      refl (omega arith)

py_to_c_parts-c_parts_to_py_example :
    py_to_c_parts (c_parts_to_py broker.err2str (part ∷ [])) started
    ≡ (ok (map placed (part ∷ [])), record started { lists = 1 })
py_to_c_parts-c_parts_to_py_example = py_to_c_parts-c_parts_to_py broker.err2str (part ∷ []) started

-- ===== src/TopicPartition.antt =====
-- TopicPartition: construction, comparison and hash (confluent_kafka/src/confluent_kafka.c).
pub mod Order
pub mod Lists
use Prim.Native.Nat.{bit_xor}
use confluent_kafka_python.Base.{Bool, true, false, not, ◌&&◌, ◌||◌, Option, none, some}
use confluent_kafka_python.Base.Int.{ℤ, pos, negsuc, ltb_ℤ, eqb_ℤ}
use confluent_kafka_python.Base.Text.{Text, Sign, less, same, more, strcmp}
use confluent_kafka_python.Base.Words.{sub_int, to_word, of_word, long_mod, long_half}
use confluent_kafka_python.Object.{TopicPartition, Object, topic_partition}
use confluent_kafka_python.KafkaError.{new_or_none, Op, lt, le, eq, ne, gt, ge}

-- RD_KAFKA_PARTITION_UA and RD_KAFKA_OFFSET_INVALID
abbrev pub partition_ua : ℤ
partition_ua = negsuc 0

abbrev pub offset_invalid : ℤ
offset_invalid = negsuc 1000

-- TopicPartition_setup and TopicPartition_new0
unfoldable pub new0 : (ℤ → Text) → Text → ℤ → ℤ → ℤ → TopicPartition
unfolding new_or_none
new0 err2str topic partition offset err = record {
  topic = topic;
  partition = partition;
  offset = offset;
  error = new_or_none err2str err none;
}

abbrev or_default : Option ℤ → ℤ → ℤ
or_default none d = d
or_default (some z) d = z

-- TopicPartition_init, on the parsed arguments.
unfoldable pub init : (ℤ → Text) → Text → Option ℤ → Option ℤ → TopicPartition
unfolding new0
init err2str topic partition offset =
    new0 err2str topic (or_default partition partition_ua) (or_default offset offset_invalid)
      (pos 0)

abbrev is_less : Sign → Bool
is_less less = true
is_less _ = false

abbrev is_same : Sign → Bool
is_same same = true
is_same _ = false

abbrev is_more : Sign → Bool
is_more more = true
is_more _ = false

-- The switch of TopicPartition_richcompare, on `tr` and `pr`.
unfoldable pub decide_op : Sign → ℤ → Op → Bool
decide_op tr pr lt = is_less tr || is_same tr && ltb_ℤ pr (pos 0)
decide_op tr pr le = is_less tr || is_same tr && not (ltb_ℤ (pos 0) pr)
decide_op tr pr eq = is_same tr && eqb_ℤ pr (pos 0)
decide_op tr pr ne = not (is_same tr) || not (eqb_ℤ pr (pos 0))
decide_op tr pr gt = is_more tr || is_same tr && ltb_ℤ (pos 0) pr
decide_op tr pr ge = is_more tr || is_same tr && not (ltb_ℤ pr (pos 0))

-- TopicPartition_richcompare; `none` is the NotImplementedError for an object of another type.
unfoldable pub richcompare : TopicPartition → Object → Op → Option Bool
unfolding decide_op
richcompare a (topic_partition b) op =
    some (decide_op (strcmp a.topic b.topic) (sub_int a.partition b.partition) op)
richcompare a other op = none

-- TopicPartition_hash; `hash_str` is PyObject_Hash on the topic's str.
unfoldable pub hash : (Text → ℤ) → TopicPartition → ℤ
hash hash_str tp =
    of_word long_mod long_half
      (bit_xor (to_word long_mod (hash_str tp.topic)) (to_word long_mod tp.partition))

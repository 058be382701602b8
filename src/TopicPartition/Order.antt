-- ===== src/TopicPartition/Order.antt =====
-- TopicPartition's comparison operators against the order by topic, then by partition.
use confluent_kafka_python.Base.{◌+◌, ◌≤◌, ◌<◌, ◌≡◌, ◌↔◌, ◌⊎◌, true, false, some, arith}
use confluent_kafka_python.Base.Int.{ℤ, pos, negsuc, pos_part, neg_part, eqb_ℤ_iff, ◌-ℤ◌}
use confluent_kafka_python.Base.Text.{Text, less, strcmp, strcmp_self, eq_of_strcmp, strcmp-flip}
use confluent_kafka_python.Base.Words.{sub_int, sub_int-zero, wrap_int_id, IsInt, int_half}
use confluent_kafka_python.Object.{TopicPartition, topic_partition}
use confluent_kafka_python.KafkaError.{lt, le, eq, ne, gt, ge}
use confluent_kafka_python.TopicPartition.{richcompare, hash}

abbrev pub ◌<ℤ◌ : ℤ → ℤ → Type 0
◌<ℤ◌ a b = pos_part a + neg_part b < pos_part b + neg_part a

-- The order: by topic, then by partition.
abbrev pub Before : TopicPartition → TopicPartition → Type 0
Before a b =
    (strcmp a.topic b.topic ≡ less) ⊎ ((a.topic ≡ b.topic) × (◌<ℤ◌ a.partition b.partition))

abbrev pub Same : TopicPartition → TopicPartition → Type 0
Same a b = (a.topic ≡ b.topic) × (a.partition ≡ b.partition)

-- The partitions lie so near to one another that their difference fits in an int.
abbrev pub Near : TopicPartition → TopicPartition → Type 0
Near a b =
    (pos_part a.partition + neg_part b.partition
      < int_half + (pos_part b.partition + neg_part a.partition))
    × (pos_part b.partition + neg_part a.partition
        < int_half + (pos_part a.partition + neg_part b.partition))

-- For two TopicPartitions with int partitions, == holds exactly if topic and partition agree,
-- and != is its negation.
pub richcompare-eq :
    (a b : TopicPartition)
    → IsInt a.partition
    → IsInt b.partition
    → ((richcompare a (topic_partition b) eq ≡ some true) ↔ Same a b)
      × ((richcompare a (topic_partition b) ne ≡ some false) ↔ Same a b)
unfolding richcompare
richcompare-eq a b ha hb = ground (
  arith,
  sub_int-zero a.partition b.partition ha hb,
  eqb_ℤ_iff (sub_int a.partition b.partition) (pos 0),
  eq_of_strcmp a.topic b.topic,
  strcmp_self a.topic,
)

sub_int_near :
    (a b : ℤ)
    → (pos_part a + neg_part b < int_half + (pos_part b + neg_part a))
    → (pos_part b + neg_part a < int_half + (pos_part a + neg_part b))
    → sub_int a b ≡ a -ℤ b
unfolding sub_int
sub_int_near a b h k = wrap_int_id (a -ℤ b) (near a b h k)
  where
    near :
        (a b : ℤ)
        → (pos_part a + neg_part b < int_half + (pos_part b + neg_part a))
        → (pos_part b + neg_part a < int_half + (pos_part a + neg_part b))
        → IsInt (a -ℤ b)
    near (pos a) (pos b) h k = ground arith
    near (pos a) (negsuc b) h k = ground arith
    near (negsuc a) (pos b) h k = ground arith
    near (negsuc a) (negsuc b) h k = ground arith

-- Between TopicPartitions whose partitions lie so near that the difference fits in an int, <, >,
-- <= and >= decide the order by topic and then by partition.
pub richcompare-Before :
    (a b : TopicPartition)
    → Near a b
    → ((richcompare a (topic_partition b) lt ≡ some true) ↔ Before a b)
      × ((richcompare a (topic_partition b) gt ≡ some true) ↔ Before b a)
      × ((richcompare a (topic_partition b) le ≡ some false) ↔ Before b a)
      × ((richcompare a (topic_partition b) ge ≡ some false) ↔ Before a b)
unfolding richcompare ◌-ℤ◌
richcompare-Before a b h =
    rw (sub_int_near a.partition b.partition h.0 h.1, ◌-ℤ◌)
      (ground
        (arith, eq_of_strcmp a.topic b.topic, strcmp_self a.topic, strcmp-flip a.topic b.topic))

-- Two TopicPartitions with int partitions that == calls equal have equal hashes.
pub hash-richcompare :
    (hash_str : Text → ℤ) (a b : TopicPartition)
    → IsInt a.partition
    → IsInt b.partition
    → richcompare a (topic_partition b) eq ≡ some true
    → hash hash_str a ≡ hash hash_str b
unfolding hash
hash-richcompare hash_str a b ha hb e =
    let s : Same a b = (richcompare-eq a b ha hb).0.0 e in rw (s.0, s.1)

-- Where the partitions of one topic lie 2 ^ 31 or more apart, the int difference overflows, and
-- the larger partition is called smaller.
pub richcompare_overflow :
    (a b : TopicPartition)
    → IsInt a.partition
    → IsInt b.partition
    → a.topic ≡ b.topic
    → int_half + (pos_part b.partition + neg_part a.partition)
      ≤ pos_part a.partition + neg_part b.partition
    → (richcompare a (topic_partition b) lt ≡ some true)
      × (richcompare a (topic_partition b) gt ≡ some false)
unfolding richcompare sub_int
richcompare_overflow a b ha hb e far =
    ground (arith, strcmp_self a.topic, strcmp-flip a.topic b.topic)

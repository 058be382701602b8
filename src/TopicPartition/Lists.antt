-- ===== src/TopicPartition/Lists.antt =====
-- c_parts_to_py and py_to_c_parts of confluent_kafka/src/confluent_kafka.c.
use confluent_kafka_python.Base.{suc, ◌≡◌, refl, Option, none, some, List, [], ◌∷◌, map}
use confluent_kafka_python.Base.Int.{ℤ, pos}
use confluent_kafka_python.Base.Text.{Text}
use mathlib.Core.Option
use confluent_kafka_python.Object.{
  Object, Objects, nil, cons, list, topic_partition, TopicPartition, of_list, type_error,
}
use confluent_kafka_python.World.{World, CPart, M, ok, pure, raise, new_list, destroy_list, ◌>>◌}
use confluent_kafka_python.TopicPartition.{new0}

unfoldable pub part_to_py : (ℤ → Text) → CPart → Object
unfolding new0
part_to_py err2str p = topic_partition (new0 err2str p.topic p.partition p.offset p.err)

unfoldable pub c_parts_to_py : (ℤ → Text) → List CPart → Object
unfolding part_to_py
c_parts_to_py err2str parts = list (of_list (map (part_to_py err2str) parts))

-- An element that rd_kafka_topic_partition_list_add appends, with the offset set behind it.
abbrev pub to_c : TopicPartition → CPart
to_c tp = record {
  topic = tp.topic;
  partition = tp.partition;
  offset = tp.offset;
  metadata = none;
  opaque = none;
  err = pos 0;
}

-- The loop of py_to_c_parts; `none` is its TypeError.
unfoldable pub collect : Objects → Option (List CPart)
collect nil = some []
collect (cons (topic_partition tp) os) = Option.map (◌∷◌ (to_c tp)) (collect os)
collect (cons other os) = none

-- The new list stays owned on success, and is destroyed again on an error.
unfoldable pub py_to_c_parts : Object → M (List CPart)
py_to_c_parts (list os) = do
  new_list
  elim (collect os) [
    | some parts ↦ pure parts
    | none ↦ destroy_list >> raise (type_error "expected cimpl.TopicPartition")
  ]
py_to_c_parts other = raise (type_error "requires list of TopicPartition")

-- What is left of a partition: its topic, number and offset.
abbrev pub placed : CPart → CPart
placed p = record p { metadata = none; opaque = none; err = pos 0 }

collect-of_list :
    (err2str : ℤ → Text) (parts : List CPart)
    → collect (of_list (map (part_to_py err2str) parts)) ≡ some (map placed parts)
unfolding collect part_to_py
collect-of_list err2str [] = refl
collect-of_list err2str (p ∷ parts) = rw (collect-of_list err2str parts)

-- Back from Python, the list of partitions that was handed to Python has the same topics, partitions
-- and offsets, in their order; the error codes are cleared, and the metadata and opaque pointers, which
-- a TopicPartition does not hold, are lost. The new list is owned, and the error indicator and all
-- else are kept.
pub py_to_c_parts-c_parts_to_py :
    (err2str : ℤ → Text) (parts : List CPart) (w : World)
    → py_to_c_parts (c_parts_to_py err2str parts) w
      ≡ (ok (map placed parts), record w { lists = suc w.lists })
unfolding py_to_c_parts c_parts_to_py
py_to_c_parts-c_parts_to_py err2str parts w = rw (collect-of_list err2str parts)

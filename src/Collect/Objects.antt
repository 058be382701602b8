-- ===== src/Collect/Objects.antt =====
-- The clear and traverse functions of the objects that are no clients, together.
use confluent_kafka_python.Base.{◌≡◌, false, []}
use confluent_kafka_python.Collect.Slots.{
  PartSlots, part_clear, part_traverse, part_clear-traverse, MessageSlots, message_clear,
  message_traverse, message_clear-traverse,
}
use confluent_kafka_python.Collect.Admin.{
  TopicSlots, topic_clear, topic_traverse, topic_clear-traverse, PartitionsSlots, partitions_clear,
  partitions_traverse, partitions_clear-traverse,
}

-- What Python's collector relies on, of every TopicPartition, Message, NewTopic and NewPartitions: the
-- clear function drops one reference of exactly the objects that traverse visits, in that order, and
-- traverse visits none behind it; a Message then owns no headers object either.
pub objects_clear-traverse :
    (p : PartSlots) (m : MessageSlots) (t : TopicSlots) (n : PartitionsSlots)
    → (((part_clear p).dropped ≡ part_traverse p) × (part_traverse (part_clear p).object ≡ []))
      × (((message_clear m).dropped ≡ message_traverse m)
          × (message_traverse (message_clear m).object ≡ [])
          × ((message_clear m).object.c_headers ≡ false))
      × (((topic_clear t).dropped ≡ topic_traverse t)
          × (topic_traverse (topic_clear t).object ≡ []))
      × (((partitions_clear n).dropped ≡ partitions_traverse n)
          × (partitions_traverse (partitions_clear n).object ≡ []))
objects_clear-traverse p m t n =
    let k = message_clear-traverse m in
    (
      part_clear-traverse p,
      (k.0, k.1.0, k.1.1),
      topic_clear-traverse t,
      partitions_clear-traverse n,
    )

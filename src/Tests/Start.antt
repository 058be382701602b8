-- ===== src/Tests/Start.antt =====
-- The theorems on the module's initialisation, on KafkaError and on references at concrete inputs.
use confluent_kafka_python.Base.{
  ℕ, ◌≡◌, ◌⊎◌, ◌*◌, ◌<◌, ◌≤◌, ◌↔◌, ◌||◌, not, true, false, Option, none, some, List, [], ◌∷◌, ◌++◌,
  length,
}
use confluent_kafka_python.Base.Int.{ℤ, pos, negsuc}
use confluent_kafka_python.Base.Text.{Text, codes}
use confluent_kafka_python.Object.{
  Object, KafkaError, none_object, int, str, list, nil, callable, kafka_error,
}
use confluent_kafka_python.KafkaError.{eq, ne, le, lt, gt, ge}
use confluent_kafka_python.KafkaError.Compare.{hash, richcompare, answers, richcompare_lem}
use confluent_kafka_python.Cimpl.Errors.{Desc, add_errs, header_text}
use confluent_kafka_python.Cimpl.Rows.{described, rows, constants}
use confluent_kafka_python.Cimpl.Bounds.{add_errs_lem}
use confluent_kafka_python.Cimpl.Types.{Interpreter}
use confluent_kafka_python.Collect.Slots.{
  PartSlots, part_clear, part_traverse, MessageSlots, message_clear, message_traverse,
}
use confluent_kafka_python.Collect.Admin.{
  TopicSlots, TopicWrites, PartitionsSlots, PartitionsWrites, Filled, complete, topic_init,
  topic_clear, topic_traverse, partitions_init, partitions_clear, partitions_traverse,
}
use confluent_kafka_python.Collect.Balance.{IsBalanced, init-clear}
use confluent_kafka_python.Collect.Objects
use confluent_kafka_python.Collect.Handles
use confluent_kafka_python.Collect.Handles.{
  held, consumer_slots, producer_slots, admin_slots, consumer_traverse, producer_traverse,
  admin_traverse,
}
use confluent_kafka_python.Consumer.Lifecycle
use confluent_kafka_python.Producer.Serve
use confluent_kafka_python.Admin.Request
use confluent_kafka_python.World.{World}
use confluent_kafka_python.Tests.{started}

-- One described error and one without a description.
abbrev errors : List Desc
errors =
    record { code = negsuc 0; name = codes "UNKNOWN"; desc = some (codes "Unknown broker error") }
    ∷ record { code = pos 100; name = codes "GAP"; desc = none }
    ∷ []

-- Two described errors.
abbrev crowded : List Desc
crowded =
    record { code = negsuc 0; name = codes "UNKNOWN"; desc = some (codes "Unknown broker error") }
    ∷ record { code = pos 1; name = codes "OFFSET"; desc = some (codes "Offset out of range") }
    ∷ []

abbrev doc : Text
doc = codes "Kafka error"

add_errs_lem_example :
    ((316 * described crowded < 200 * length crowded)
      × ((n : ℕ) × (add_errs crowded [] doc
            ≡ some (
              constants crowded [],
              record { text = doc ++ header_text ++ rows crowded ++ codes "\n"; size = n },
            ))))
    ⊎ ((200 * length crowded ≤ 316 * described crowded) × (add_errs crowded [] doc ≡ none))
add_errs_lem_example = add_errs_lem crowded [] doc

abbrev python : Interpreter
python = record {
  ready = λ name. true;
  creates = true;
  makes_exception = true;
  value = λ name. pos 0;
}

abbrev unknown : KafkaError
unknown = record {
  code = negsuc 0;
  text = none;
  fatal = false;
  retriable = false;
  txn_requires_abort = false;
}

abbrev fatal_error : KafkaError
fatal_error = record unknown { code = negsuc 149; fatal = true }

-- PyLong_AsLong of an int in range, and of None.
abbrev as_long : Object → Option ℤ
as_long (int z) = some z
as_long o = none

richcompare_lem_example :
    ((answers as_long unknown (kafka_error fatal_error) eq ≡ true)
      ↔ (hash unknown ≡ hash fatal_error))
    × (answers as_long unknown (kafka_error fatal_error) le ≡ (
        answers as_long unknown (kafka_error fatal_error) lt
        || answers as_long unknown (kafka_error fatal_error) eq))
    × (answers as_long unknown (kafka_error fatal_error) ge ≡ (
        answers as_long unknown (kafka_error fatal_error) gt
        || answers as_long unknown (kafka_error fatal_error) eq))
    × (answers as_long unknown (kafka_error fatal_error) ne
        ≡ not (answers as_long unknown (kafka_error fatal_error) eq))
    × (answers as_long unknown (kafka_error fatal_error) gt
        ≡ answers as_long fatal_error (kafka_error unknown) lt)
    × ((richcompare as_long unknown (kafka_error fatal_error) gt).1 ≡ false)
richcompare_lem_example = richcompare_lem as_long unknown fatal_error gt

-- NewTopic("orders", 2, config=[]), and NewPartitions("orders", 3).
abbrev bad_topic : Filled TopicWrites
bad_topic = complete (codes "orders") (record {
  num_partitions = some (pos 2);
  replication_factor = none;
  replica_assignment = none;
  config = some (list nil);
})

abbrev more_partitions : Filled PartitionsWrites
more_partitions =
    complete (codes "orders")
      (record { new_total_count = some (pos 3); replica_assignment = some (list nil) })

abbrev blank_topic : TopicSlots
blank_topic = record {
  topic = none;
  num_partitions = pos 0;
  replication_factor = pos 0;
  replica_assignment = none;
  config = none;
}

abbrev blank_partitions : PartitionsSlots
blank_partitions = record { topic = none; new_total_count = pos 0; replica_assignment = none }

init-clear_example :
    IsBalanced
      (topic_init bad_topic blank_topic)
      (topic_clear (topic_init bad_topic blank_topic).object).dropped
      (list nil ∷ [])
    × IsBalanced
        (partitions_init more_partitions blank_partitions)
        (partitions_clear (partitions_init more_partitions blank_partitions).object).dropped
        (list nil ∷ [])
init-clear_example = init-clear bad_topic blank_topic more_partitions blank_partitions

abbrev part : PartSlots
part = record { topic = some (codes "orders"); error = some none_object }

abbrev message : MessageSlots
message = record {
  topic = some (str (codes "orders"));
  value = none;
  key = some (str (codes "k"));
  error = some none_object;
  headers = none;
  c_headers = true;
}

objects_clear-traverse_example :
    (((part_clear part).dropped ≡ none_object ∷ []) × (part_traverse (part_clear part).object ≡ []))
    × (((message_clear message).dropped ≡ message_traverse message)
        × (message_traverse (message_clear message).object ≡ [])
        × ((message_clear message).object.c_headers ≡ false))
    × (((topic_clear blank_topic).dropped ≡ topic_traverse blank_topic)
        × (topic_traverse (topic_clear blank_topic).object ≡ []))
    × (((partitions_clear blank_partitions).dropped ≡ partitions_traverse blank_partitions)
        × (partitions_traverse (partitions_clear blank_partitions).object ≡ []))
unfolding part_traverse
objects_clear-traverse_example =
    Objects.objects_clear-traverse part message blank_topic blank_partitions

-- A Consumer with a callback and a logger.
abbrev logging : World
logging = record started { logger = some (callable 5) }

clients_clear-traverse_example :
    (held (consumer_slots (Lifecycle.clear logging).1) ≡ [])
    × (held (producer_slots (Serve.clear logging).1) ≡ [])
    × (held (admin_slots (Request.clear logging).1) ≡ [])
    × (held (consumer_slots logging) ≡ consumer_traverse logging ++ (callable 5 ∷ []))
    × (held (producer_slots logging) ≡ producer_traverse logging ++ (callable 5 ∷ []))
    × (held (admin_slots logging) ≡ admin_traverse logging ++ (callable 5 ∷ []))
clients_clear-traverse_example = Handles.clients_clear-traverse logging

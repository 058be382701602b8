-- ===== src/Collect/Admin.antt =====
-- Of confluent_kafka/src/AdminTypes.c: the life of NewTopic and NewPartitions objects.
use confluent_kafka_python.Base.{
  ℕ, ◌≡◌, Bool, true, false, Option, none, some, List, [], ◌++◌, arith,
}
use mathlib.Core.Option
use confluent_kafka_python.Base.Int.{ℤ, negsuc}
use confluent_kafka_python.Base.Text.{Text}
use confluent_kafka_python.Object.{Object, dict, Exception, type_error, application}
use confluent_kafka_python.Consumer.Offsets.{or_else}
use confluent_kafka_python.AdminTypes.{NewTopic}
use confluent_kafka_python.Collect.Slots.{slot, Cleared, drop, untouched}

-- The object's memory: `topic` is the string that strdup made.
pub record TopicSlots : Type 0 where
  pub topic : Option Text
  pub num_partitions : ℤ
  pub replication_factor : ℤ
  pub replica_assignment : Option Object
  pub config : Option Object

-- What PyArg_ParseTupleAndKeywords stored through its pointers; `none` where it stored nothing.
pub record TopicWrites : Type 0 where
  pub num_partitions : Option ℤ
  pub replication_factor : Option ℤ
  pub replica_assignment : Option Object
  pub config : Option Object

-- Its result: the parser may have stored some values before it failed.
pub data Filled (W : Type 0) : Type 0 where
  complete : Text → W → Filled W
  broken : ℕ → W → Filled W

-- What tp_init leaves: its exception, the memory, and the references that it took.
pub record Made (A : Type 0) : Type 0 where
  pub error : Option Exception
  pub object : A
  pub taken : List Object

-- NewTopic_clear
unfoldable pub topic_clear : TopicSlots → Cleared TopicSlots
topic_clear t =
    drop (λ t. t.config) (λ t. record t { config = none })
      (drop (λ t. t.replica_assignment) (λ t. record t { replica_assignment = none })
        (untouched (record t { topic = none })))

unfoldable pub topic_traverse : TopicSlots → List Object
topic_traverse t = slot t.replica_assignment ++ slot t.config

abbrev pub store_topic : TopicWrites → TopicSlots → TopicSlots
store_topic ws t = record t {
  num_partitions = or_else ws.num_partitions t.num_partitions;
  replication_factor = or_else ws.replication_factor (negsuc 0);
  replica_assignment = ws.replica_assignment;
  config = ws.config;
}

abbrev pub is_dict : Option Object → Bool
is_dict none = true
is_dict (some (dict es)) = true
is_dict (some o) = false

-- NewTopic_init
unfoldable pub topic_init : Filled TopicWrites → TopicSlots → Made TopicSlots
topic_init (broken n ws) t = record {
  error = some (application n);
  object = store_topic ws t;
  taken = [];
}
topic_init (complete topic ws) t =
    let u : TopicSlots = store_topic ws t in
    elim (is_dict u.config) [
      | true ↦ record {
        error = none;
        object = record u { topic = some topic };
        taken = slot u.config ++ slot u.replica_assignment;
      }
      | false ↦ record {
        error = some (type_error "config must be a dict of strings");
        object = u;
        taken = [];
      }
    ]

-- The value that the other functions read from the memory, where there is a topic.
abbrev pub as_topic : TopicSlots → Option NewTopic
as_topic t =
    Option.map
      (λ topic. record {
        topic = topic;
        num_partitions = t.num_partitions;
        replication_factor = t.replication_factor;
        replica_assignment = t.replica_assignment;
        config = t.config;
      })
      t.topic

pub record PartitionsSlots : Type 0 where
  pub topic : Option Text
  pub new_total_count : ℤ
  pub replica_assignment : Option Object

pub record PartitionsWrites : Type 0 where
  pub new_total_count : Option ℤ
  pub replica_assignment : Option Object

-- NewPartitions_clear
unfoldable pub partitions_clear : PartitionsSlots → Cleared PartitionsSlots
partitions_clear p =
    drop (λ p. p.replica_assignment) (λ p. record p { replica_assignment = none })
      (untouched (record p { topic = none }))

unfoldable pub partitions_traverse : PartitionsSlots → List Object
partitions_traverse p = slot p.replica_assignment

abbrev pub store_partitions : PartitionsWrites → PartitionsSlots → PartitionsSlots
store_partitions ws p = record p {
  new_total_count = or_else ws.new_total_count p.new_total_count;
  replica_assignment = ws.replica_assignment;
}

-- NewPartitions_init
unfoldable pub partitions_init : Filled PartitionsWrites → PartitionsSlots → Made PartitionsSlots
partitions_init (broken n ws) p = record {
  error = some (application n);
  object = store_partitions ws p;
  taken = [];
}
partitions_init (complete topic ws) p = record {
  error = none;
  object = record (store_partitions ws p) { topic = some topic };
  taken = slot ws.replica_assignment;
}

pub topic_clear-traverse :
    (t : TopicSlots)
    → ((topic_clear t).dropped ≡ topic_traverse t) × (topic_traverse (topic_clear t).object ≡ [])
unfolding topic_clear topic_traverse
topic_clear-traverse t = ground arith

pub partitions_clear-traverse :
    (p : PartitionsSlots)
    → ((partitions_clear p).dropped ≡ partitions_traverse p)
      × (partitions_traverse (partitions_clear p).object ≡ [])
unfolding partitions_clear partitions_traverse
partitions_clear-traverse p = ground arith

-- ===== src/Collect/Balance.antt =====
-- The references of NewTopic and NewPartitions objects, from tp_init to tp_dealloc.
use confluent_kafka_python.Base.{
  ◌≡◌, refl, sym, subst, ◌⊎◌, inl, inr, Bool, true, false, none, some, List, [], ◌++◌,
}
use mathlib.Core.List.{Permᴰ}
use mathlib.Core.List.Permᴰ
use confluent_kafka_python.Base.Int.{negsuc}
use confluent_kafka_python.Base.Text.{Text}
use confluent_kafka_python.Object.{Object, Exception, type_error, application}
use confluent_kafka_python.Consumer.Offsets.{or_else}
use confluent_kafka_python.Collect.Slots.{slot}
use confluent_kafka_python.Collect.Admin.{
  TopicSlots, TopicWrites, PartitionsSlots, PartitionsWrites, Filled, complete, broken, Made,
  topic_init, topic_clear, topic_traverse, topic_clear-traverse, as_topic, is_dict, store_topic,
  partitions_init, partitions_clear, partitions_traverse, partitions_clear-traverse,
}

-- What the parser stored.
abbrev pub writes : {W : Type 0} → Filled W → W
writes (complete topic ws) = ws
writes (broken n ws) = ws

-- The references that the destructor drops are those that tp_init took; or tp_init raised, took
-- none, and the destructor drops those that the parser stored.
abbrev pub IsBalanced : {A : Type 0} → Made A → List Object → List Object → Type 0
IsBalanced m dropped stored =
    ((m.error ≡ none) × Permᴰ m.taken dropped)
    ⊎ (((e : Exception) × (m.error ≡ some e)) × (m.taken ≡ []) × (dropped ≡ stored))

topic_balance :
    (args : Filled TopicWrites) (t : TopicSlots)
    → IsBalanced
        (topic_init args t)
        (topic_traverse (topic_init args t).object)
        (slot (writes args).replica_assignment ++ slot (writes args).config)
unfolding topic_init topic_traverse
topic_balance (broken n ws) t = inr ((application n, refl), refl, refl)
topic_balance (complete topic ws) t = go (is_dict ws.config)
  where
    u : TopicSlots
    u = store_topic ws t

    go :
        (b : Bool)
        → let m : Made TopicSlots = elim b [
          | true ↦ record {
            error = none;
            object = record u { topic = some topic };
            taken = slot u.config ++ slot u.replica_assignment;
          }
          | false ↦ record {
            error = some (type_error "config must be a dict of strings");
            object = u;
            taken = [];
          }
        ] in
          IsBalanced m (topic_traverse m.object) (slot ws.replica_assignment ++ slot ws.config)
    go true = inl (refl, Permᴰ.append_comm (slot ws.config) (slot ws.replica_assignment))
    go false = inr ((_, refl), refl, refl)

partitions_balance :
    (args : Filled PartitionsWrites) (p : PartitionsSlots)
    → IsBalanced
        (partitions_init args p)
        (partitions_traverse (partitions_init args p).object)
        (slot (writes args).replica_assignment)
unfolding partitions_init partitions_traverse
partitions_balance (complete topic ws) p = inl (refl, Permᴰ.refl (slot ws.replica_assignment))
partitions_balance (broken n ws) p = inr ((application n, refl), refl, refl)

-- A NewTopic whose constructor succeeds drops in its destructor exactly the references that it took,
-- and so does a NewPartitions. Where the constructor raises (on arguments that the parser rejects, or a
-- config that is no dict) it took no reference, and the destructor drops one of each object that the
-- parser had stored.
pub init-clear :
    (args : Filled TopicWrites) (t : TopicSlots) (args2 : Filled PartitionsWrites)
    (p : PartitionsSlots)
    → IsBalanced
        (topic_init args t)
        (topic_clear (topic_init args t).object).dropped
        (slot (writes args).replica_assignment ++ slot (writes args).config)
      × IsBalanced
          (partitions_init args2 p)
          (partitions_clear (partitions_init args2 p).object).dropped
          (slot (writes args2).replica_assignment)
init-clear args t args2 p = (
  subst
      (λ l.
        IsBalanced (topic_init args t) l
          (slot (writes args).replica_assignment ++ slot (writes args).config))
      (sym (topic_clear-traverse (topic_init args t).object).0) (topic_balance args t),
  subst (λ l. IsBalanced (partitions_init args2 p) l (slot (writes args2).replica_assignment))
      (sym (partitions_clear-traverse (partitions_init args2 p).object).0)
      (partitions_balance args2 p),
)

-- The value of a new NewTopic: what was given, with a replication factor of -1 by default.
pub topic_init-as_topic :
    (topic : Text) (ws : TopicWrites) (t : TopicSlots)
    → is_dict ws.config ≡ true
    → as_topic (topic_init (complete topic ws) t).object
      ≡ some (record {
        topic = topic;
        num_partitions = or_else ws.num_partitions t.num_partitions;
        replication_factor = or_else ws.replication_factor (negsuc 0);
        replica_assignment = ws.replica_assignment;
        config = ws.config;
      })
unfolding topic_init
topic_init-as_topic topic ws t h = rw (h, topic_init)

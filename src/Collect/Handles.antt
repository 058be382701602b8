-- ===== src/Collect/Handles.antt =====
-- The traverse functions of the clients, of confluent_kafka/src/confluent_kafka.c, Consumer.c,
-- Producer.c and Admin.c, against their clear functions.
use confluent_kafka_python.Base.{◌≡◌, Option, List, [], ◌∷◌, ◌++◌, arith}
use confluent_kafka_python.Object.{Object}
use confluent_kafka_python.World.{World}
use confluent_kafka_python.Handle.{handle_clear}
use confluent_kafka_python.Admin.Request
use confluent_kafka_python.Consumer.Lifecycle
use confluent_kafka_python.Producer.Serve
use confluent_kafka_python.Collect.Slots.{slot}

-- Handle_traverse
unfoldable pub handle_traverse : World → List Object
handle_traverse w = slot w.error_cb ++ slot w.throttle_cb ++ slot w.stats_cb

-- Consumer_traverse
unfoldable pub consumer_traverse : World → List Object
unfolding handle_traverse
consumer_traverse w = slot w.on_assign ++ slot w.on_revoke ++ slot w.on_commit ++ handle_traverse w

-- Producer_traverse
unfoldable pub producer_traverse : World → List Object
unfolding handle_traverse
producer_traverse w = slot w.default_dr_cb ++ handle_traverse w

-- Admin_traverse
unfoldable pub admin_traverse : World → List Object
unfolding handle_traverse
admin_traverse w = handle_traverse w

-- The pointers of a client that Python's collector has to know of: those that its clear function sets
-- to NULL.
abbrev pub consumer_slots : World → List (Option Object)
consumer_slots w =
    w.on_assign ∷ w.on_revoke ∷ w.on_commit ∷ w.error_cb ∷ w.throttle_cb ∷ w.stats_cb ∷ w.logger
    ∷ []

abbrev pub producer_slots : World → List (Option Object)
producer_slots w = w.default_dr_cb ∷ w.error_cb ∷ w.throttle_cb ∷ w.stats_cb ∷ w.logger ∷ []

abbrev pub admin_slots : World → List (Option Object)
admin_slots w = w.error_cb ∷ w.throttle_cb ∷ w.stats_cb ∷ w.logger ∷ []

-- The objects of pointers.
unfoldable pub held : List (Option Object) → List Object
held [] = []
held (s ∷ ss) = slot s ++ held ss

-- The clear function of each client leaves no pointer that it held: of the objects that it held,
-- traverse visited all but the logger.
pub clients_clear-traverse :
    (w : World)
    → (held (consumer_slots (Lifecycle.clear w).1) ≡ [])
      × (held (producer_slots (Serve.clear w).1) ≡ [])
      × (held (admin_slots (Request.clear w).1) ≡ [])
      × (held (consumer_slots w) ≡ consumer_traverse w ++ slot w.logger)
      × (held (producer_slots w) ≡ producer_traverse w ++ slot w.logger)
      × (held (admin_slots w) ≡ admin_traverse w ++ slot w.logger)
unfolding held Lifecycle.clear Lifecycle.clear0 Serve.clear Serve.clear0 Request.clear handle_clear
    consumer_traverse producer_traverse admin_traverse handle_traverse
clients_clear-traverse w =
    (ground arith, ground arith, ground arith, ground arith, ground arith, ground arith)

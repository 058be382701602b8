-- ===== src/Consumer/Method.antt =====
-- The methods of a Consumer as one type, and the call of one of them.
use confluent_kafka_python.Base.{ℕ, Bool, Option}
use confluent_kafka_python.Base.Text.{Text}
use confluent_kafka_python.Object.{Object}
use confluent_kafka_python.World.{Env, M, ok, null, fault, Parsed}
use confluent_kafka_python.Format.{Seconds}
use confluent_kafka_python.Consumer.Assignment
use confluent_kafka_python.Consumer.Subscription
use confluent_kafka_python.Consumer.Offsets
use confluent_kafka_python.Consumer.Flow
use confluent_kafka_python.Consumer.Fetch
use confluent_kafka_python.Consumer.Lifecycle
use confluent_kafka_python.Metadata

-- The entries of Consumer_methods.
pub data Method : Type 0 where
  subscribe : Parsed (Object × Option Object × Option Object) → Method
  unsubscribe unassign assignment close consumer_group_metadata : Method
  poll : Parsed (Option Seconds) → Method
  consume : Parsed (Option ℕ × Option Seconds) → Method
  assign : Object → Method
  store_offsets : Parsed (Option Object × Option Object) → Method
  commit : Parsed (Option Object × Option Object × Option Object) → Method
  committed offsets_for_times : Parsed (Object × Option Seconds) → Method
  position pause resume seek : Parsed Object → Method
  get_watermark_offsets : Parsed (Object × Option Seconds × Bool) → Method
  list_topics : Parsed (Option Text × Option Seconds) → Method

-- Whether the call returned; the value is left out.
abbrev pub forget : {A : Type 0} → M A → M (Unit {0})
forget m w =
    let (r, w') = m w in elim r [ ok _ ↦ (ok tt, w') | null ↦ (null, w') | fault ↦ (fault, w') ]

unfoldable pub call_method : Env → Method → M (Unit {0})
call_method env (subscribe args) = forget (Subscription.subscribe env args)
call_method env unsubscribe = forget (Subscription.unsubscribe env)
call_method env unassign = forget (Assignment.unassign env)
call_method env assignment = forget (Subscription.assignment env)
call_method env close = forget (Lifecycle.close env)
call_method env consumer_group_metadata = forget (Lifecycle.consumer_group_metadata env)
call_method env (poll args) = forget (Fetch.poll env args)
call_method env (consume args) = forget (Fetch.consume env args)
call_method env (assign o) = forget (Assignment.assign env o)
call_method env (store_offsets args) = forget (Offsets.store_offsets env args)
call_method env (commit args) = forget (Offsets.commit env args)
call_method env (committed args) = forget (Offsets.committed env args)
call_method env (offsets_for_times args) = forget (Offsets.offsets_for_times env args)
call_method env (position args) = forget (Offsets.position env args)
call_method env (pause args) = forget (Flow.pause env args)
call_method env (resume args) = forget (Flow.resume env args)
call_method env (seek args) = forget (Flow.seek env args)
call_method env (get_watermark_offsets args) = forget (Flow.get_watermark_offsets env args)
call_method env (list_topics args) = forget (Metadata.list_topics env args)

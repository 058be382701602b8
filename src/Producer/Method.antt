-- ===== src/Producer/Method.antt =====
-- The methods of a Producer as one type, Producer_methods and Producer_seq_methods of
-- confluent_kafka/src/Producer.c, and the call of one of them.
use confluent_kafka_python.Base.{ℕ, true, false, Option, none, some, List, [], ◌∷◌}
use confluent_kafka_python.Base.Text.{Text}
use confluent_kafka_python.Object.{Object, bytes}
use confluent_kafka_python.Format.{Seconds, default_seconds, timeout_ms}
use confluent_kafka_python.World.{
  World, Env, Event, RdCall, CPart, M, ok, null, fault, Parsed, parsed, rejected,
}
use confluent_kafka_python.TopicPartition.Lists.{py_to_c_parts}
use confluent_kafka_python.Consumer.Method.{forget}
use confluent_kafka_python.Consumer.Offsets.{or_else}
use confluent_kafka_python.Metadata
use confluent_kafka_python.Producer.Produce
use confluent_kafka_python.Producer.Produce.{ProduceArgs}
use confluent_kafka_python.Producer.Serve
use confluent_kafka_python.Producer.Transaction
use confluent_kafka_python.Producer.Ends.{events_of}

-- Producer__len__, which has no test for a NULL handle.
unfoldable pub queue_len : Env → M ℕ
queue_len env w = elim w.rk [ true ↦ (ok (env.out_queue_len w.calls), w) | false ↦ (fault, w) ]

pub data Method : Type 0 where
  produce : Parsed ProduceArgs → Method
  poll flush init_transactions commit_transaction abort_transaction :
      Parsed (Option Seconds) → Method
  list_topics : Parsed (Option Text × Option Seconds) → Method
  begin_transaction len : Method
  send_offsets_to_transaction : Parsed (Object × Object × Option Seconds) → Method

unfoldable pub call_method : Env → Method → M (Unit {0})
unfolding queue_len
call_method env (Method.produce args) = forget (Produce.produce env args)
call_method env (Method.poll args) = forget (Serve.poll env args)
call_method env (Method.flush args) = forget (Serve.flush env args)
call_method env (Method.list_topics args) = forget (Metadata.list_topics env args)
call_method env (Method.init_transactions args) = forget (Transaction.init_transactions env args)
call_method env Method.begin_transaction = forget (Transaction.begin_transaction env)
call_method env (Method.send_offsets_to_transaction args) =
    forget (Transaction.send_offsets_to_transaction env args)
call_method env (Method.commit_transaction args) = forget (Transaction.commit_transaction env args)
call_method env (Method.abort_transaction args) = forget (Transaction.abort_transaction env args)
call_method env Method.len = forget (queue_len env)

-- The methods one after the other, of an application that catches their exceptions; `none` if one
-- ends the process.
unfoldable pub run_methods : Env → List Method → World → Option World
unfolding call_method
run_methods env [] w = some w
run_methods env (m ∷ ms) w =
    let (r, w') = call_method env m w in
    let rest = run_methods env ms w' in elim r [ ok _ ↦ rest | null ↦ rest | fault ↦ none ]

-- The events that librdkafka serves send_offsets_to_transaction(), where it comes to its call.
abbrev pub offsets_call : Env → List CPart → Object → Option Seconds → World → List Event
offsets_call env parts (bytes b) t w = elim (env.read_metadata b) [
  | none ↦ events_of env (RdCall.send_offsets parts b (timeout_ms (or_else t default_seconds))) w
  | some e ↦ []
]
offsets_call env parts other t w = []

abbrev pub offsets_events : Env → Parsed (Object × Object × Option Seconds) → World → List Event
offsets_events env (rejected n) w = []
offsets_events env (parsed (offsets, metadata, t)) w = elim (py_to_c_parts offsets w).0 [
  | ok parts ↦ offsets_call env parts metadata t w
  | null ↦ []
  | fault ↦ []
]

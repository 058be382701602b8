-- ===== src/Consumer/Lifecycle.antt =====
-- Consumer_close, Consumer_consumer_group_metadata, Consumer_clear and Consumer_dealloc of
-- confluent_kafka/src/Consumer.c, with Handle_clear and c_cgmd_to_py of confluent_kafka.c beside it.
use confluent_kafka_python.Base.{Bool, true, false, not, Option, none, some, ◌∷◌}
use confluent_kafka_python.Object.{Object, bytes, none_object, runtime_error}
use confluent_kafka_python.Base.Text.{Text}
use confluent_kafka_python.KafkaError.{LibError}
use confluent_kafka_python.World.{
  Env, RdCall, M, ok, pure, raise, raise_if, return_null, gets, modify, when, own_lib_error,
  own_metadata, destroy_metadata, call, ◌>>=◌, ◌>>◌,
}
use confluent_kafka_python.Handle.{raise_lib_error, handle_clear, destroy_client}
use confluent_kafka_python.CallState
use confluent_kafka_python.Callbacks.{call_serving}
use confluent_kafka_python.Consumer.Assignment.{require_open}

-- rd_kafka_queue_destroy, and the pointer cleared.
abbrev pub drop_queue : M (Unit {0})
drop_queue w = elim w.rkqu [
  | true ↦ (ok tt, record w { rkqu = false; calls = RdCall.queue_destroy ∷ w.calls })
  | false ↦ (ok tt, w)
]

abbrev pub require_not_closed : M (Unit {0})
require_not_closed = do
  raise_if (not (← gets (λ w. w.rk))) (runtime_error "Consumer already closed")

abbrev pub close_end : Bool → M Object
close_end true = pure none_object
close_end false = return_null

unfoldable pub close : Env → M Object
unfolding CallState.begin CallState.finish
close env = do
  require_not_closed
  CallState.begin
  call_serving env RdCall.consumer_close
  drop_queue
  call_serving env RdCall.destroy
  modify (λ w. record w { rk = false })
  CallState.finish env >>= close_end

-- c_cgmd_to_py; `none` is NULL, with an exception set.
abbrev pub c_cgmd_to_py : Env → Option LibError × Text → M (Option Object)
c_cgmd_to_py env written = elim written.0 [
  | none ↦ pure (some (bytes written.1))
  | some e ↦ own_lib_error >> raise_lib_error env e >> pure none
]

abbrev pub or_null : Option Object → M Object
or_null none = return_null
or_null (some o) = pure o

abbrev pub metadata_object : Env → Option (Option LibError × Text) → M Object
metadata_object env none = raise (runtime_error "Consumer group metadata not available")
metadata_object env (some written) = do
  own_metadata
  obj ← c_cgmd_to_py env written
  destroy_metadata
  or_null obj

unfoldable pub consumer_group_metadata : Env → M Object
consumer_group_metadata env = do
  require_open
  cgmd ← gets (λ w. env.group_metadata w.calls)
  call RdCall.consumer_group_metadata
  metadata_object env cgmd

-- Consumer_clear0
unfoldable pub clear0 : M (Unit {0})
clear0 = do
  modify (λ w. record w { on_assign = none; on_revoke = none; on_commit = none })
  drop_queue

unfoldable pub clear : M (Unit {0})
unfolding clear0 handle_clear
clear = clear0 >> handle_clear

-- Consumer_dealloc
unfoldable pub dealloc : Env → M (Unit {0})
unfolding clear0 handle_clear CallState.begin CallState.finish
dealloc env = do clear0; when (← gets (λ w. w.rk)) (destroy_client env); handle_clear

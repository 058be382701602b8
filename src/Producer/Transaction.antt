-- ===== src/Producer/Transaction.antt =====
-- The transactions of a Producer, confluent_kafka/src/Producer.c, with py_to_c_cgmd of
-- confluent_kafka/src/confluent_kafka.c.
use confluent_kafka_python.Base.{Bool, true, false, Option, none, some}
use confluent_kafka_python.Base.Text.{Text}
use confluent_kafka_python.Object.{Object, none_object, bytes, type_error}
use confluent_kafka_python.KafkaError.{LibError}
use confluent_kafka_python.Format.{Seconds, default_seconds, timeout_ms}
use confluent_kafka_python.World.{
  Env, RdCall, M, ok, null, fault, Parsed, parse, pure, raise, return_null, gets, call,
  own_lib_error, destroy_lib_error, own_metadata, destroy_metadata, destroy_list, ◌>>=◌, ◌>>◌,
}
use confluent_kafka_python.TopicPartition.Lists.{py_to_c_parts}
use confluent_kafka_python.Callbacks.{call_serving}
use confluent_kafka_python.CallState
use confluent_kafka_python.Handle.{raise_lib_error}
use confluent_kafka_python.Consumer.Offsets.{or_else}

abbrev pub own_error : Option LibError → M (Unit {0})
own_error none = pure tt
own_error (some e) = own_lib_error

-- What follows CallState_end: an exception of a callback or signal comes before the error.
abbrev pub end_transaction : Env → Option LibError → Bool → M Object
end_transaction env none true = pure none_object
end_transaction env (some e) true = raise_lib_error env e >> return_null
end_transaction env none false = return_null
end_transaction env (some e) false = destroy_lib_error >> return_null

-- A blocking call that returns an error object, with what is freed behind it.
abbrev pub blocking : Env → RdCall → M (Unit {0}) → M Object
blocking env c free = do
  CallState.begin
  error ← gets (λ w. env.lib_error w.calls c)
  call_serving env c
  own_error error
  free
  CallState.finish env >>= end_transaction env error

unfoldable pub init_transactions : Env → Parsed (Option Seconds) → M Object
unfolding CallState.begin CallState.finish timeout_ms
init_transactions env args = do
  timeout ← parse args
  blocking env (RdCall.init_transactions (timeout_ms (or_else timeout default_seconds))) (pure tt)

unfoldable pub begin_transaction : Env → M Object
begin_transaction env = do
  error ← gets (λ w. env.lib_error w.calls RdCall.begin_transaction)
  call RdCall.begin_transaction
  own_error error
  end_transaction env error true

-- py_to_c_cgmd; the new object stays owned.
unfoldable pub py_to_c_cgmd : Env → Object → M Text
py_to_c_cgmd env (bytes b) = elim (env.read_metadata b) [
  | none ↦ own_metadata >> pure b
  | some e ↦ own_lib_error >> (raise_lib_error env e >> return_null)
]
py_to_c_cgmd env other = raise (type_error "expected bytes")

-- py_to_c_cgmd, on whose failure the list of offsets is destroyed.
abbrev pub cgmd_or_free : Env → Object → M Text
cgmd_or_free env metadata w =
    let (r, w') = py_to_c_cgmd env metadata w in
    elim r [ ok b ↦ (ok b, w') | null ↦ (destroy_list >> return_null) w' | fault ↦ (fault, w') ]

unfoldable pub send_offsets_to_transaction :
    Env → Parsed (Object × Object × Option Seconds) → M Object
unfolding py_to_c_parts py_to_c_cgmd CallState.begin CallState.finish timeout_ms
send_offsets_to_transaction env args = do
  (offsets, metadata, timeout) ← parse args
  c_offsets ← py_to_c_parts offsets
  cgmd ← cgmd_or_free env metadata
  blocking env (RdCall.send_offsets c_offsets cgmd (timeout_ms (or_else timeout default_seconds)))
      (destroy_metadata >> destroy_list)

unfoldable pub commit_transaction : Env → Parsed (Option Seconds) → M Object
unfolding CallState.begin CallState.finish timeout_ms
commit_transaction env args = do
  timeout ← parse args
  blocking env (RdCall.commit_transaction (timeout_ms (or_else timeout default_seconds))) (pure tt)

unfoldable pub abort_transaction : Env → Parsed (Option Seconds) → M Object
unfolding CallState.begin CallState.finish timeout_ms
abort_transaction env args = do
  timeout ← parse args
  blocking env (RdCall.abort_transaction (timeout_ms (or_else timeout default_seconds))) (pure tt)

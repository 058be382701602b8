-- ===== src/Handle.antt =====
-- What Producers and Consumers share of confluent_kafka/src/confluent_kafka.c: an rd_kafka_error_t as
-- an exception, and the end of a client.
use confluent_kafka_python.Base.{none}
use confluent_kafka_python.KafkaError.{LibError, new_from_error}
use confluent_kafka_python.Object.{kafka_exception}
use confluent_kafka_python.World.{Env, RdCall, M, pure, modify, set_error, destroy_lib_error, ◌>>◌}
use confluent_kafka_python.CallState
use confluent_kafka_python.Callbacks.{call_serving}

-- cfl_PyErr_from_error_destroy
abbrev pub raise_lib_error : Env → LibError → M (Unit {0})
raise_lib_error env e =
    set_error (kafka_exception (new_from_error env.err2str e)) >> destroy_lib_error

-- Handle_clear, but for the thread-local key.
unfoldable pub handle_clear : M (Unit {0})
handle_clear =
    modify (λ w. record w { error_cb = none; throttle_cb = none; stats_cb = none; logger = none })

-- rd_kafka_destroy in the destructors, an exception of a callback ignored.
abbrev pub destroy_client : Env → M (Unit {0})
destroy_client env = do
  CallState.begin
  call_serving env RdCall.destroy
  CallState.finish env
  pure tt

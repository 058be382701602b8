-- ===== src/Producer/Serve.antt =====
-- Producer_poll, Producer_flush, Producer_clear and Producer_dealloc of
-- confluent_kafka/src/Producer.c.
use confluent_kafka_python.Base.{Bool, true, false, Option, none, if◌then◌else◌}
use confluent_kafka_python.Base.Int.{ℤ, pos, negsuc, eqb_ℤ}
use confluent_kafka_python.Object.{Object, int}
use confluent_kafka_python.Format.{Seconds, default_seconds, timeout_ms}
use confluent_kafka_python.World.{
  Env, RdCall, M, Parsed, parse, pure, return_null, gets, modify, when, ◌>>=◌, ◌>>◌,
}
use confluent_kafka_python.Callbacks.{call_serving}
use confluent_kafka_python.CallState
use confluent_kafka_python.Handle.{handle_clear, destroy_client}
use confluent_kafka_python.Consumer.Offsets.{or_else}

-- Producer_poll0
unfoldable pub poll0 : Env → ℤ → M ℤ
unfolding CallState.begin CallState.finish
poll0 env timeout = do
  CallState.begin
  r ← gets (λ w. env.code w.calls (RdCall.poll timeout))
  call_serving env (RdCall.poll timeout)
  fine ← CallState.finish env
  pure (if fine then r else negsuc 0)

abbrev pub served : ℤ → M Object
served r = elim (eqb_ℤ r (negsuc 0)) [ true ↦ return_null | false ↦ pure (int r) ]

unfoldable pub poll : Env → Parsed (Option Seconds) → M Object
unfolding poll0 timeout_ms
poll env args = do
  timeout ← parse args
  r ← poll0 env (timeout_ms (or_else timeout default_seconds))
  served r

-- The messages that are left in the queue.
abbrev pub end_flush : Env → Bool → M Object
end_flush env true = gets (λ w. int (pos (env.out_queue_len w.calls)))
end_flush env false = return_null

unfoldable pub flush : Env → Parsed (Option Seconds) → M Object
unfolding CallState.begin CallState.finish timeout_ms
flush env args = do
  timeout ← parse args
  CallState.begin
  call_serving env (RdCall.flush (timeout_ms (or_else timeout default_seconds)))
  CallState.finish env >>= end_flush env

-- Producer_clear0
unfoldable pub clear0 : M (Unit {0})
clear0 = modify (λ w. record w { default_dr_cb = none })

unfoldable pub clear : M (Unit {0})
unfolding clear0 handle_clear
clear = clear0 >> handle_clear

unfoldable pub dealloc : Env → M (Unit {0})
unfolding clear0 handle_clear CallState.begin CallState.finish
dealloc env = do clear0; when (← gets (λ w. w.rk)) (destroy_client env); handle_clear

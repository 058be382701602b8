-- ===== src/Consumer/Fetch.antt =====
-- Consumer_poll and Consumer_consume of confluent_kafka/src/Consumer.c.
use confluent_kafka_python.Base.{
  ℕ, zero, suc, Bool, true, false, Option, none, some, List, map, ltb, length,
}
use confluent_kafka_python.Object.{value_error}
use confluent_kafka_python.Message.{Message, new0, with_headers}
use confluent_kafka_python.World.{
  World, Env, RdCall, CMessage, M, Parsed, parse, pure, raise, raise_if, return_null, gets,
  own_messages, destroy_message, call_queue, kafka_failure, ◌>>=◌, ◌>>◌,
}
use confluent_kafka_python.CallState
use confluent_kafka_python.Callbacks.{call_serving, serve}
use confluent_kafka_python.Format.{timeout_ms, Seconds, default_seconds}
use confluent_kafka_python.Consumer.Assignment.{require_open}
use confluent_kafka_python.Consumer.Offsets.{or_else}

-- Message_new0 on the message, and its headers moved over.
unfoldable pub to_message : Env → World → CMessage → Message
unfolding with_headers
to_message env w rkm = with_headers (new0 env.err2str w.client_type rkm) rkm

abbrev pub own_one : Option CMessage → M (Unit {0})
own_one none = pure tt
own_one (some _) = own_messages 1

abbrev pub free_one : Option CMessage → M (Unit {0})
free_one none = pure tt
free_one (some _) = destroy_message

abbrev pub hand_out : Env → Option CMessage → M (Option Message)
hand_out env none = pure none
hand_out env (some rkm) = do m ← gets (λ w. to_message env w rkm); destroy_message; pure (some m)

-- What follows CallState_end, by its result.
abbrev pub end_poll : Env → Option CMessage → Bool → M (Option Message)
end_poll env rkm true = hand_out env rkm
end_poll env rkm false = free_one rkm >> return_null

-- `none` is None.
unfoldable pub poll : Env → Parsed (Option Seconds) → M (Option Message)
unfolding CallState.begin CallState.finish timeout_ms
poll env args = do
  require_open
  timeout ← parse args
  CallState.begin
  let c = RdCall.consumer_poll (timeout_ms (or_else timeout default_seconds))
  rkm ← gets (λ w. env.message w.calls c)
  call_serving env c
  own_one rkm
  CallState.finish env >>= end_poll env rkm

unfoldable pub destroy_messages : ℕ → M (Unit {0})
destroy_messages zero = pure tt
destroy_messages (suc n) = destroy_message >>= λ _. destroy_messages n

abbrev pub count : Option (List CMessage) → ℕ
count none = 0
count (some rkms) = length rkms

abbrev pub last_failure : Env → M (List Message)
last_failure env w =
    raise (kafka_failure env (env.last_error w.calls) (env.err2str (env.last_error w.calls))) w

abbrev pub hand_out_all : Env → Option (List CMessage) → M (List Message)
hand_out_all env none = last_failure env
hand_out_all env (some rkms) = do
  ms ← gets (λ w. map (to_message env w) rkms)
  destroy_messages (length rkms)
  pure ms

abbrev pub end_consume : Env → Option (List CMessage) → Bool → M (List Message)
end_consume env rkms true = hand_out_all env rkms
end_consume env rkms false = destroy_messages (count rkms) >> return_null

abbrev pub max_messages : ℕ
max_messages = 1000000

abbrev pub too_many : ℕ → M (Unit {0})
too_many n =
    raise_if (ltb max_messages n) (value_error "num_messages must be between 0 and 1000000 (1M)")

-- The batch comes through the queue; `none` of `batch` is the return of -1.
unfoldable pub consume : Env → Parsed (Option ℕ × Option Seconds) → M (List Message)
unfolding CallState.begin CallState.finish timeout_ms
consume env args = do
  require_open
  a ← parse args
  let num_messages = or_else a.0 1
  too_many num_messages
  CallState.begin
  let c = RdCall.consume_batch_queue (timeout_ms (or_else a.1 default_seconds)) num_messages
  rkms ← gets (λ w. env.batch w.calls c)
  events ← gets (λ w. env.events w.calls c)
  call_queue c
  serve env events
  own_messages (count rkms)
  CallState.finish env >>= end_consume env rkms

-- ===== src/Init.antt =====
-- Consumer_init, Producer_init and Admin_init of confluent_kafka/src.
pub mod Starts
pub mod Lives
use confluent_kafka_python.Base.{ℕ, Bool, true, false, Option, none, some, List, ◌++◌}
use confluent_kafka_python.Base.Text.{Text, codes}
use confluent_kafka_python.Object.{Object, Entries, runtime_error, kafka_exception}
use confluent_kafka_python.KafkaError.{new0}
use confluent_kafka_python.World.{
  World, Env, Held, Conf, RdCall, ClientType, producer, consumer, admin, M, Result, ok, null, fault,
  pure, raise, raise_if, gets, modify, set_error, return_null, when, call, ◌>>=◌, ◌>>◌,
}
use confluent_kafka_python.Config.{common_conf_setup, destroy_conf, is_given}

-- rd_kafka_new, which owns the configuration where it makes a client.
unfoldable pub create_client : Env → Conf → Text → M (Unit {0})
create_client env c failure = elim (env.create c) [
  | none ↦ modify (λ w. record w { rk = true }) >> destroy_conf
  | some errstr ↦ do
    calls ← gets (λ w. w.calls)
    set_error (kafka_exception (new0 env.err2str (env.last_error calls) (some (failure ++ errstr))))
    destroy_conf
    return_null
]

-- Log messages go to the main queue.
abbrev pub forward_log : M (Unit {0})
forward_log = do logger ← gets (λ w. w.logger); when (is_given logger) (call RdCall.set_log_queue)

-- rd_kafka_queue_get_consumer does not give NULL for a consumer.
unfoldable pub consumer_init : Env → List Object → Option Entries → M (Unit {0})
unfolding common_conf_setup create_client
consumer_init env args kwargs = do
  started ← gets (λ w. w.rk)
  raise_if started (runtime_error "Consumer already initialized")
  modify (λ w. record w { client_type = consumer })
  c ← common_conf_setup env consumer args kwargs
  create_client env (record c { rebalance = true; offset_commit = true })
      (codes "Failed to create consumer: ")
  forward_log
  call RdCall.poll_set_consumer
  modify (λ w. record w { rkqu = true })

unfoldable pub producer_init : Env → List Object → Option Entries → M (Unit {0})
unfolding common_conf_setup create_client
producer_init env args kwargs = do
  started ← gets (λ w. w.rk)
  raise_if started (runtime_error "Producer already __init__:ialized")
  modify (λ w. record w { client_type = producer })
  c ← common_conf_setup env producer args kwargs
  create_client env (record c { delivery = true }) (codes "Failed to create producer: ")
  forward_log

unfoldable pub admin_init : Env → List Object → Option Entries → M (Unit {0})
unfolding common_conf_setup create_client
admin_init env args kwargs = do
  started ← gets (λ w. w.rk)
  raise_if started (runtime_error "Admin already __init__:ialized")
  modify (λ w. record w { client_type = admin })
  c ← common_conf_setup env admin args kwargs
  create_client env (record c { background = true }) (codes "Failed to create admin client: ")
  forward_log

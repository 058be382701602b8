-- ===== src/Callbacks/Dispatch.antt =====
-- The callbacks that librdkafka serves during a call, one after the other.
use confluent_kafka_python.Base.{List, [], ◌∷◌}
use confluent_kafka_python.World.{
  Env, RdCall, Event, error_event, throttle_event, stats_event, log_event, delivery_event,
  commit_event, rebalance_event, M, pure, gets, call, ◌>>=◌, ◌>>◌,
}
use confluent_kafka_python.Callbacks.Common.{error_cb, throttle_cb, stats_cb, log_cb}
use confluent_kafka_python.Callbacks.Consumer.{rebalance_cb, offset_commit_cb}
use confluent_kafka_python.Callbacks.Delivery.{dr_msg_cb}

unfoldable pub dispatch : Env → Event → M (Unit {0})
dispatch env (error_event err reason) = error_cb env err reason
dispatch env (throttle_event broker id ms) = throttle_cb env broker id ms
dispatch env (stats_event json) = stats_cb env json
dispatch env (log_event level fac buf) = log_cb env level fac buf
dispatch env (delivery_event rkm) = dr_msg_cb env rkm
dispatch env (commit_event err parts) = offset_commit_cb env err parts
dispatch env (rebalance_event err parts) = rebalance_cb env err parts

unfoldable pub serve : Env → List Event → M (Unit {0})
serve env [] = pure tt
serve env (e ∷ es) = dispatch env e >>= λ _. serve env es

-- A call of librdkafka that serves callbacks while it blocks.
unfoldable pub call_serving : Env → RdCall → M (Unit {0})
unfolding serve
call_serving env c = do events ← gets (λ w. env.events w.calls c); call c; serve env events

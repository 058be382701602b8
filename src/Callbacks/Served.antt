-- ===== src/Callbacks/Served.antt =====
-- Every callback that librdkafka serves a Consumer comes to its end, with the lock released again
-- and the client as it was.
pub mod Common
pub mod Group
use confluent_kafka_python.Base.{
  ℕ, suc, not, ltb, leb, ◌==◌, length, le→leb, ◌≤◌, ◌≡◌, refl, sym, subst, Bool, true, false,
  Option, none, some, List, [], ◌∷◌, arith, if◌then◌else◌, Bool-cases, Option-cases, inl, inr,
}
use confluent_kafka_python.Base.Int.{ℤ, eqb_ℤ}
use confluent_kafka_python.Base.Text.{Text}
use confluent_kafka_python.Object.{
  Object, Exception, client, str, application, type_error, kafka_exception,
}
use confluent_kafka_python.KafkaError.{new_fatal, new_or_none}
use confluent_kafka_python.Message.{error_object}
use confluent_kafka_python.TopicPartition.Lists.{c_parts_to_py}
use confluent_kafka_python.World.{
  World, Env, Event, RdCall, pure, set_error, assert_that, when, gets, modify, ◌>>=◌, error_event,
  throttle_event, stats_event, log_event, delivery_event, commit_event, rebalance_event, CPart,
  CMessage, M, Result, ok, null, fault, ◌>>◌,
}
use confluent_kafka_python.World.Laws.{
  Stays, Stays-refl, Stays-trans, Completes, Completes->>=, Returns,
}
use confluent_kafka_python.CallState
use confluent_kafka_python.Callbacks.Invoke.{invoke, invoke_field, call_arg}
use confluent_kafka_python.Consumer.Assignment.Keeps.{IsHeld, IsHeld-stable}
use confluent_kafka_python.Callbacks.Invoke.Keeps.{invoke-Completes, invoke_field-Completes}
use confluent_kafka_python.Callbacks.Common.{
  err_fatal, crash_and_yield, or_crash, fatal_branch, call_error_cb, call_throttle_cb,
  call_with_event, no_throttle_type, log_args, error_cb, throttle_cb, stats_cb, log_cb,
}
use confluent_kafka_python.Callbacks.Consumer.{
  err_assign, rebalance_callback, build_failed, run_callback, fallback, call_rebalance,
  parts_object, call_on_commit, rebalance_cb, offset_commit_cb,
}
use confluent_kafka_python.Callbacks.Delivery.{dr_msg_cb}
use confluent_kafka_python.Callbacks.Dispatch.{dispatch, serve}
use confluent_kafka_python.Callbacks.Released.{
  IsReleased, IsReleased-stable, within-Completes, gets-Completes, quiet-Completes,
}
use Common.{error_cb-Completes, throttle_cb-Completes, stats_cb-Completes, log_cb-Completes}
use Group.{rebalance_cb-Completes, offset_commit_cb-Completes}

-- What librdkafka serves a Consumer: no delivery reports, and log levels of syslog's.
abbrev pub IsServable : Event → Type 0
IsServable (log_event level fac buf) = level ≤ 7
IsServable (delivery_event rkm) = rkm.msgstate ≡ none
IsServable _ = Unit

abbrev pub AreServable : List Event → Type 0
AreServable [] = Unit
AreServable (e ∷ es) = IsServable e × AreServable es

no_msgstate :
    (env : Env) (rkm : CMessage) → rkm.msgstate ≡ none → Completes IsReleased (dr_msg_cb env rkm)
unfolding dr_msg_cb
no_msgstate env rkm h w p = rw h (tt, Stays-refl w)

pub dispatch-Completes :
    (env : Env) (e : Event) → IsServable e → Completes IsReleased (dispatch env e)
unfolding dispatch
dispatch-Completes env (error_event err reason) h = error_cb-Completes env err reason
dispatch-Completes env (throttle_event broker id ms) h = throttle_cb-Completes env broker id ms
dispatch-Completes env (stats_event json) h = stats_cb-Completes env json
dispatch-Completes env (log_event level fac buf) h = log_cb-Completes env level fac buf h
dispatch-Completes env (delivery_event rkm) h = no_msgstate env rkm h
dispatch-Completes env (commit_event err parts) h = offset_commit_cb-Completes env err parts
dispatch-Completes env (rebalance_event err parts) h = rebalance_cb-Completes env err parts

pub serve-Completes :
    (env : Env) (es : List Event) → AreServable es → Completes IsReleased (serve env es)
unfolding serve
serve-Completes env [] h = λ w p. (tt, Stays-refl w)
serve-Completes env (e ∷ es) h =
    Completes->>= IsReleased IsReleased-stable (dispatch env e) _ (dispatch-Completes env e h.0)
      (λ _. serve-Completes env es h.1)

-- Whatever callbacks librdkafka serves a Consumer in one blocking call (no delivery reports, and log
-- levels of 7 at most), and whatever the application does in them, none ends the process, and
-- behind them the lock, the CallState, the client's pointers and all that is owned are as before.
pub serve-Returns :
    (env : Env) (es : List Event) (w : World)
    → AreServable es
    → IsReleased w
    → Returns (serve env es w).0 × Stays w (serve env es w).1
serve-Returns env es w h p = serve-Completes env es h w p

-- ===== src/Callbacks/Consumer.antt =====
-- Consumer_rebalance_cb and Consumer_offset_commit_cb of confluent_kafka/src/Consumer.c.
use confluent_kafka_python.Base.{
  Bool, true, false, not, Option, none, some, List, [], ◌∷◌, if◌then◌else◌, ◌==◌,
}
use confluent_kafka_python.Base.Int.{ℤ, negsuc, eqb_ℤ}
use confluent_kafka_python.Base.Text.{codes}
use confluent_kafka_python.Object.{Object, client, list, nil}
use confluent_kafka_python.KafkaError.{new_or_none}
use confluent_kafka_python.Message.{error_object}
use confluent_kafka_python.TopicPartition.Lists.{c_parts_to_py}
use confluent_kafka_python.World.{
  World, CPart, Env, RdCall, M, pure, gets, modify, set_error, when, kafka_failure, ◌>>=◌, ◌>>◌,
}
use confluent_kafka_python.CallState
use confluent_kafka_python.Callbacks.Invoke.{invoke, call_arg}
use confluent_kafka_python.Callbacks.Common.{err_fail}

-- RD_KAFKA_RESP_ERR__ASSIGN_PARTITIONS and RD_KAFKA_RESP_ERR__REVOKE_PARTITIONS
abbrev pub err_assign : ℤ
err_assign = negsuc 174

abbrev pub err_revoke : ℤ
err_revoke = negsuc 173

-- The callback for a rebalance event, if the event is one of the two and the callback is set.
abbrev pub rebalance_callback : ℤ → World → Option Object
rebalance_callback err w =
    if eqb_ℤ err err_assign then w.on_assign else if eqb_ℤ err err_revoke then w.on_revoke else none

abbrev pub build_failed : Env → M (Unit {0})
build_failed env = do
  set_error (kafka_failure env err_fail (codes "Unable to build callback args"))
  CallState.crash

-- The `if (result) … else { CallState_crash(cs); rd_kafka_yield(rk); }` of both callbacks.
abbrev pub run_callback : Env → Object → List Object → M (Unit {0})
run_callback env f args = do
  result ← invoke env f args
  when (not result) (CallState.crash >> call_arg RdCall.yield)

-- The call of assign that librdkafka needs, made here unless the application made it.
abbrev pub fallback : ℤ → List CPart → M (Unit {0})
fallback err parts = do
  assigned ← gets (λ w. w.rebalance_assigned)
  when (assigned == 0)
      (call_arg (RdCall.assign (if eqb_ℤ err err_assign then some parts else none)))

-- True if the fallback is to follow: arguments that cannot be built end the callback.
abbrev pub call_rebalance : Env → List CPart → Option Object → M Bool
call_rebalance env parts none = pure true
call_rebalance env parts (some f) = do
  built ← gets (λ w. env.builds w.calls)
  elim built [
    | false ↦ build_failed env >> pure false
    | true ↦ run_callback env f (client ∷ c_parts_to_py env.err2str parts ∷ []) >> pure true
  ]

abbrev pub rebalance_body : Env → ℤ → List CPart → M (Unit {0})
rebalance_body env err parts = do
  modify (λ w. record w { rebalance_assigned = 0 })
  f ← gets (rebalance_callback err)
  more ← call_rebalance env parts f
  when more (fallback err parts)

-- Consumer_rebalance_cb
unfoldable pub rebalance_cb : Env → ℤ → List CPart → M (Unit {0})
unfolding CallState.crash
rebalance_cb env err parts = CallState.within (rebalance_body env err parts)

abbrev pub parts_object : Env → Option (List CPart) → Object
parts_object env none = list nil
parts_object env (some parts) = c_parts_to_py env.err2str parts

abbrev pub call_on_commit : Env → ℤ → Option (List CPart) → Object → M (Unit {0})
call_on_commit env err parts f = CallState.within (do
  built ← gets (λ w. env.builds w.calls)
  elim built [
    | false ↦ build_failed env
    | true ↦
        run_callback env f
          (error_object (new_or_none env.err2str err none) ∷ parts_object env parts ∷ [])
  ])

-- Consumer_offset_commit_cb
unfoldable pub offset_commit_cb : Env → ℤ → Option (List CPart) → M (Unit {0})
unfolding CallState.crash
offset_commit_cb env err parts = do
  f ← gets (λ w. w.on_commit)
  elim f [ none ↦ pure tt | some f ↦ call_on_commit env err parts f ]

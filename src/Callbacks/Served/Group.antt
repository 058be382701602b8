-- ===== src/Callbacks/Served/Group.antt =====
-- Consumer_rebalance_cb and Consumer_offset_commit_cb come to their end.
use confluent_kafka_python.Base.{
  not, ◌==◌, Bool, true, false, Option, none, some, List, [], ◌∷◌, arith, if◌then◌else◌,
}
use confluent_kafka_python.Base.Int.{ℤ, eqb_ℤ}
use confluent_kafka_python.Object.{Object, client}
use confluent_kafka_python.KafkaError.{new_or_none}
use confluent_kafka_python.Message.{error_object}
use confluent_kafka_python.TopicPartition.Lists.{c_parts_to_py}
use confluent_kafka_python.World.{World, Env, RdCall, pure, when, modify, CPart, M, Result, ◌>>◌}
use confluent_kafka_python.World.Laws.{Stays, Stays-refl, Completes, Completes->>=, Returns}
use confluent_kafka_python.CallState
use confluent_kafka_python.Callbacks.Invoke.{invoke, call_arg}
use confluent_kafka_python.Consumer.Assignment.Keeps.{IsHeld, IsHeld-stable}
use confluent_kafka_python.Callbacks.Invoke.Keeps.{invoke-Completes}
use confluent_kafka_python.Callbacks.Consumer.{
  err_assign, rebalance_callback, build_failed, run_callback, fallback, call_rebalance,
  rebalance_body, parts_object, call_on_commit, rebalance_cb, offset_commit_cb,
}
use confluent_kafka_python.Callbacks.Released.{
  IsReleased, within-Completes, gets-Completes, quiet-Completes,
}

pub run_callback-Completes :
    (env : Env) (f : Object) (args : List Object) → Completes IsHeld (run_callback env f args)
unfolding CallState.crash
run_callback-Completes env f args =
    Completes->>= IsHeld IsHeld-stable (invoke env f args) _ (invoke-Completes env f args) after
  where
    after : (r : Bool) → Completes IsHeld (when (not r) (CallState.crash >> call_arg RdCall.yield))
    after true = λ w p. (tt, Stays-refl w)
    after false = λ w p. (tt, ground arith)

pub build_failed-Completes : (env : Env) → Completes IsHeld (build_failed env)
unfolding CallState.crash
build_failed-Completes env w p = (tt, ground arith)

fallback-Completes :
    (env : Env) (err : ℤ) (parts : List CPart) → Completes IsHeld (fallback err parts)
fallback-Completes env err parts = gets-Completes (λ w. w.rebalance_assigned) _ λ n. choose (n == 0)
  where
    choose :
        (b : Bool)
        → Completes IsHeld
            (when b (call_arg (RdCall.assign (if eqb_ℤ err err_assign then some parts else none))))
    choose true = λ w p. (tt, ground arith)
    choose false = λ w p. (tt, Stays-refl w)

pub call_rebalance-Completes :
    (env : Env) (parts : List CPart) (f : Option Object)
    → Completes IsHeld (call_rebalance env parts f)
call_rebalance-Completes env parts none = λ w p. (tt, Stays-refl w)
call_rebalance-Completes env parts (some f) = gets-Completes (λ w. env.builds w.calls) _ choose
  where
    choose :
        (built : Bool)
        → Completes IsHeld (elim built [
          | false ↦ build_failed env >> pure false
          | true ↦ run_callback env f (client ∷ c_parts_to_py env.err2str parts ∷ []) >> pure true
        ])
    choose true =
        Completes->>= IsHeld IsHeld-stable
          (run_callback env f (client ∷ c_parts_to_py env.err2str parts ∷ [])) (λ _. pure true)
          (run_callback-Completes env f (client ∷ c_parts_to_py env.err2str parts ∷ []))
          (λ _ w p. (tt, Stays-refl w))
    choose false =
        Completes->>= IsHeld IsHeld-stable (build_failed env) (λ _. pure false)
          (build_failed-Completes env) (λ _ w p. (tt, Stays-refl w))

pub rebalance_body-Completes :
    (env : Env) (err : ℤ) (parts : List CPart) → Completes IsHeld (rebalance_body env err parts)
rebalance_body-Completes env err parts =
    quiet-Completes (modify (λ w. record w { rebalance_assigned = 0 })) _ (λ w. (tt, ground arith))
      λ _. gets-Completes (rebalance_callback err) _ λ f.
        Completes->>= IsHeld IsHeld-stable (call_rebalance env parts f) _
          (call_rebalance-Completes env parts f) after
  where
    after : (more : Bool) → Completes IsHeld (when more (fallback err parts))
    after true = fallback-Completes env err parts
    after false = λ w p. (tt, Stays-refl w)

pub rebalance_cb-Completes :
    (env : Env) (err : ℤ) (parts : List CPart) → Completes IsReleased (rebalance_cb env err parts)
unfolding rebalance_cb
rebalance_cb-Completes env err parts =
    within-Completes (rebalance_body env err parts) (rebalance_body-Completes env err parts)

call_on_commit-Completes :
    (env : Env) (err : ℤ) (parts : Option (List CPart)) (f : Object)
    → Completes IsReleased (call_on_commit env err parts f)
call_on_commit-Completes env err parts f =
    within-Completes _ (gets-Completes (λ w. env.builds w.calls) _ choose)
  where
    choose :
        (built : Bool)
        → Completes IsHeld (elim built [
          | false ↦ build_failed env
          | true ↦
              run_callback env f
                (error_object (new_or_none env.err2str err none) ∷ parts_object env parts ∷ [])
        ])
    choose true = run_callback-Completes env f _
    choose false = build_failed-Completes env

pub offset_commit_cb-Completes :
    (env : Env) (err : ℤ) (parts : Option (List CPart))
    → Completes IsReleased (offset_commit_cb env err parts)
unfolding offset_commit_cb
offset_commit_cb-Completes env err parts w p = choose w.on_commit
  where
    choose :
        (f : Option Object)
        → let r : Result (Unit {0}) × World =
            (elim f as (λ _. M (Unit {0})) [
              | none ↦ pure tt
              | some f ↦ call_on_commit env err parts f
            ])
              w in
          Returns r.0 × Stays w r.1
    choose none = (tt, Stays-refl w)
    choose (some f) = call_on_commit-Completes env err parts f w p

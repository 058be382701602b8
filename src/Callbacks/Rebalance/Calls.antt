-- ===== src/Callbacks/Rebalance/Calls.antt =====
-- The application's calls of assign and unassign in a callback are counted.
use confluent_kafka_python.Base.{
  ℕ, suc, ◌+◌, not, ◌≡◌, refl, sym, subst, Bool, true, false, Option, none, some, List, [], ◌∷◌,
  arith, Option-cases,
}
use confluent_kafka_python.Object.{Object, client, list}
use confluent_kafka_python.World.{
  World, Env, RdCall, CPart, Act, assigns, unassigns, M, Result, ok, null, fault, pure, gets, when,
  assert_that, ◌>>=◌, ◌>>◌,
}
use confluent_kafka_python.World.Laws.{Moves, Moves->>=, Returns}
use confluent_kafka_python.Consumer.Assignment.Keeps.{IsHeld}
use confluent_kafka_python.Callbacks.Served.Group.{run_callback-Completes}
use confluent_kafka_python.CallState
use confluent_kafka_python.TopicPartition.Lists.{py_to_c_parts, collect, c_parts_to_py}
use confluent_kafka_python.Consumer.Assignment.{assign, unassign}
use confluent_kafka_python.Callbacks.Invoke.{
  do_act, do_acts, after_act, after_acts, attempt, end_script, invoke, call_arg,
}
use confluent_kafka_python.Callbacks.Consumer.{build_failed, call_rebalance, run_callback}

-- How many of the calls are calls of rd_kafka_assign.
abbrev pub assign_calls : List RdCall → ℕ
assign_calls [] = 0
assign_calls (RdCall.assign _ ∷ cs) = suc (assign_calls cs)
assign_calls (_ ∷ cs) = assign_calls cs

-- Every further call of rd_kafka_assign is counted in `rebalance_assigned`.
abbrev pub Counts : World → World → Type 0
Counts u v =
    assign_calls v.calls + u.rebalance_assigned ≡ assign_calls u.calls + v.rebalance_assigned

Counts-trans : (u v w : World) → Counts u v → Counts v w → Counts u w
Counts-trans u v w h k = omega arith

assign-Counts : (env : Env) (o : Object) → Moves Counts Counts-trans (assign env o)
unfolding assign py_to_c_parts
assign-Counts env (list os) w = ground (arith, Option-cases (collect os))
assign-Counts env _ w = ground arith

unassign-Counts : (env : Env) → Moves Counts Counts-trans (unassign env)
unfolding unassign
unassign-Counts env w = ground arith

attempt-Counts :
    {A : Type 0} (m : M A) → Moves Counts Counts-trans m → Moves Counts Counts-trans (attempt m)
attempt-Counts {A} m h w = go (m w) (h w)
  where
    go :
        (r : Result A × World)
        → Counts w r.1
        → let x : Result Bool × World = elim r.0 [
          | ok _ ↦ (ok true, r.1)
          | null ↦ (ok false, r.1)
          | fault ↦ (fault, r.1)
        ] in
          Counts w x.1
    go (ok a, w') k = k
    go (null, w') k = k
    go (fault, w') k = k

do_act-Counts : (env : Env) (a : Act) → Moves Counts Counts-trans (do_act env a)
unfolding do_act
do_act-Counts env (assigns o) = assign-Counts env o
do_act-Counts env unassigns = unassign-Counts env

do_acts-Counts :
    (env : Env) (catches : Bool) (acts : List Act)
    → Moves Counts Counts-trans (do_acts env catches acts)
unfolding do_acts
do_acts-Counts env catches [] = λ w. refl
do_acts-Counts env catches (a ∷ acts) =
    Moves->>= Counts Counts-trans (attempt (do_act env a))
      (after_act catches (do_acts env catches acts))
      (attempt-Counts (do_act env a) (do_act-Counts env a))
      (after catches (do_acts env catches acts) (do_acts-Counts env catches acts))
  where
    after :
        (catches : Bool) (m : M Bool)
        → Moves Counts Counts-trans m
        → (done : Bool) → Moves Counts Counts-trans (after_act catches m done)
    after catches m h true = h
    after true m h false = λ w. h (record w { error = none })
    after false m h false = λ w. refl

end_script-Counts : (raises : Option ℕ) → Moves Counts Counts-trans (end_script raises)
end_script-Counts none w = refl
end_script-Counts (some n) w = refl

invoke-Counts :
    (env : Env) (f : Object) (args : List Object) → Moves Counts Counts-trans (invoke env f args)
unfolding invoke
invoke-Counts env f args =
    Moves->>= Counts Counts-trans (gets (λ w. w.gil) >>= assert_that) (λ _. script) locked
      λ _.
        Moves->>= Counts Counts-trans (do_acts env (env.run f args).catches (env.run f args).acts)
          (after_acts (env.run f args).raises)
          (do_acts-Counts env (env.run f args).catches (env.run f args).acts) after
  where
    script : M Bool
    script =
        do_acts env (env.run f args).catches (env.run f args).acts
        >>= after_acts (env.run f args).raises

    locked : Moves Counts Counts-trans (gets (λ w. w.gil) >>= assert_that)
    locked w = ground arith

    after : (done : Bool) → Moves Counts Counts-trans (after_acts (env.run f args).raises done)
    after true = end_script-Counts (env.run f args).raises
    after false = λ w. refl

run_callback-Counts :
    (env : Env) (f : Object) (args : List Object)
    → Moves Counts Counts-trans (run_callback env f args)
unfolding CallState.crash
run_callback-Counts env f args =
    Moves->>= Counts Counts-trans (invoke env f args)
      (λ r. when (not r) (CallState.crash >> call_arg RdCall.yield)) (invoke-Counts env f args)
      after
  where
    after :
        (r : Bool)
        → Moves Counts Counts-trans (when (not r) (CallState.crash >> call_arg RdCall.yield))
    after true = λ w. refl
    after false = λ w. refl

pub call_rebalance_lem :
    (env : Env) (parts : List CPart) (f : Option Object) (w : World)
    → IsHeld w
    → env.builds w.calls ≡ true
    → ((call_rebalance env parts f w).0 ≡ ok true) × Counts w (call_rebalance env parts f w).1
call_rebalance_lem env parts none w p built = (refl, refl)
call_rebalance_lem env parts (some f) w p built =
    subst (λ b. let x : Result Bool × World = (choice b) w in (x.0 ≡ ok true) × Counts w x.1)
      (sym built)
      (go (run_callback env f args w) (run_callback-Completes env f args w p).0
        (run_callback-Counts env f args w))
  where
    args : List Object
    args = client ∷ c_parts_to_py env.err2str parts ∷ []

    choice : Bool → M Bool
    choice b = elim b [
      | false ↦ build_failed env >> pure false
      | true ↦ run_callback env f args >> pure true
    ]

    go :
        (r : Result (Unit {0}) × World)
        → Returns r.0
        → Counts w r.1
        → let x : Result Bool × World = elim r.0 [
          | ok a ↦ (ok true, r.1)
          | null ↦ (null, r.1)
          | fault ↦ (fault, r.1)
        ] in
          (x.0 ≡ ok true) × Counts w x.1
    go (ok a, w') k c = (refl, c)
    go (null, w') k c = absurd k
    go (fault, w') k c = absurd k

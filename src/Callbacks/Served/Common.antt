-- ===== src/Callbacks/Served/Common.antt =====
-- error_cb, throttle_cb, stats_cb and log_cb come to their end.
use confluent_kafka_python.Base.{
  ℕ, suc, not, ltb, leb, length, le→leb, ◌≤◌, ◌≡◌, sym, subst, Bool, true, false, Option, none,
  some, [], ◌∷◌, arith,
}
use confluent_kafka_python.Base.Int.{ℤ, eqb_ℤ}
use confluent_kafka_python.Base.Text.{Text}
use confluent_kafka_python.Object.{Object, Exception, str, application, kafka_exception}
use confluent_kafka_python.KafkaError.{new_fatal}
use confluent_kafka_python.World.{World, Env, RdCall, set_error, assert_that, when, M, ok}
use confluent_kafka_python.World.Laws.{Stays, Stays-refl, Completes, Completes->>=, Returns}
use confluent_kafka_python.CallState
use confluent_kafka_python.Callbacks.Invoke.{invoke_field}
use confluent_kafka_python.Consumer.Assignment.Keeps.{IsHeld, IsHeld-stable}
use confluent_kafka_python.Callbacks.Invoke.Keeps.{invoke-Completes, invoke_field-Completes}
use confluent_kafka_python.Callbacks.Common.{
  err_fatal, crash_and_yield, or_crash, fatal_branch, call_error_cb, call_throttle_cb,
  call_with_event, no_throttle_type, log_args, error_cb, throttle_cb, stats_cb, log_cb,
}
use confluent_kafka_python.Callbacks.Released.{
  IsReleased, within-Completes, gets-Completes, quiet-Completes,
}

crash_and_yield-Completes : Completes IsHeld crash_and_yield
unfolding CallState.crash
crash_and_yield-Completes w p =
    subst (λ r. Returns r.0 × Stays w r.1) (sym (lem w p.0)) (tt, ground arith)
  where
    lem :
        (w : World)
        → w.rk ≡ true
        → crash_and_yield w
          ≡ (ok tt, record w { crashed = suc w.crashed; calls = RdCall.yield ∷ w.calls })
    lem w e = ground arith

or_crash-Completes : (m : M Bool) → Completes IsHeld m → Completes IsHeld (or_crash m)
unfolding CallState.crash
or_crash-Completes m h = Completes->>= IsHeld IsHeld-stable m _ h after
  where
    after : (r : Bool) → Completes IsHeld (when (not r) crash_and_yield)
    after true = λ w p. (tt, Stays-refl w)
    after false = λ w p. crash_and_yield-Completes w p

set_error-Stays :
    (e : Exception) (w : World) → Returns (set_error e w).0 × Stays w (set_error e w).1
set_error-Stays e w = (tt, ground arith)

fatal-Completes : (env : Env) → Completes IsHeld (fatal_branch env)
fatal-Completes env =
    gets-Completes (λ w. env.fatal_error w.calls) _
      λ fatal.
        quiet-Completes (set_error (kafka_exception (new_fatal env.err2str fatal.0 fatal.1))) _
          (set_error-Stays _) (λ _. crash_and_yield-Completes)

call_error-Completes :
    (env : Env) (err : ℤ) (reason : Text) (f : Option Object)
    → Completes IsHeld (call_error_cb env err reason f)
call_error-Completes env err reason none = λ w p. (tt, Stays-refl w)
call_error-Completes env err reason (some f) = or_crash-Completes _ (invoke-Completes env f _)

pub error_cb-Completes :
    (env : Env) (err : ℤ) (reason : Text) → Completes IsReleased (error_cb env err reason)
unfolding error_cb
error_cb-Completes env err reason =
    within-Completes _ (gets-Completes (λ w. w.error_cb) _ λ f. choose (eqb_ℤ err err_fatal) f)
  where
    choose :
        (b : Bool) (f : Option Object)
        → Completes IsHeld
            (elim b [ true ↦ fatal_branch env | false ↦ call_error_cb env err reason f ])
    choose true f = fatal-Completes env
    choose false f = call_error-Completes env err reason f

call_throttle-Completes :
    (env : Env) (broker : Text) (id : ℤ) (ms : ℕ) (f : Option Object)
    → Completes IsHeld (call_throttle_cb env broker id ms f)
call_throttle-Completes env broker id ms none = λ w p. (tt, Stays-refl w)
call_throttle-Completes env broker id ms (some f) = lookup env.throttle_type
  where
    made : (r : Option ℕ) → Completes IsHeld (call_with_event env broker id ms f r)
    made (some n) =
        quiet-Completes (set_error (application n)) _ (set_error-Stays _)
          (λ _. crash_and_yield-Completes)
    made none = or_crash-Completes _ (invoke-Completes env f _)

    lookup :
        (found : Bool)
        → Completes IsHeld (elim found [
          | false ↦ no_throttle_type
          | true ↦ call_with_event env broker id ms f env.throttle_raises
        ])
    lookup false =
        quiet-Completes (set_error _) _ (set_error-Stays _) (λ _. crash_and_yield-Completes)
    lookup true = made env.throttle_raises

pub throttle_cb-Completes :
    (env : Env) (broker : Text) (id : ℤ) (ms : ℕ)
    → Completes IsReleased (throttle_cb env broker id ms)
unfolding throttle_cb
throttle_cb-Completes env broker id ms =
    within-Completes _
      (gets-Completes (λ w. w.throttle_cb) _ (call_throttle-Completes env broker id ms))

pub stats_cb-Completes : (env : Env) (json : Text) → Completes IsReleased (stats_cb env json)
unfolding stats_cb
stats_cb-Completes env json =
    within-Completes _ (gets-Completes (λ w. w.stats_cb) _ λ f. choose (ltb 0 (length json)) f)
  where
    choose :
        (b : Bool) (f : Option Object)
        → Completes IsHeld (when b (or_crash (invoke_field env f (str json ∷ []))))
    choose true f = or_crash-Completes _ (invoke_field-Completes env f _)
    choose false f = λ w p. (tt, Stays-refl w)

pub log_cb-Completes :
    (env : Env) (level : ℕ) (fac buf : Text)
    → level ≤ 7
    → Completes IsReleased (log_cb env level fac buf)
unfolding log_cb
log_cb-Completes env level fac buf h = within-Completes _ (
    quiet-Completes (assert_that (leb level 7)) _ in_table (λ _.
      gets-Completes (λ w. w.logger) _
        λ f. or_crash-Completes _ (invoke_field-Completes env f (log_args env level fac buf))))
  where
    in_table :
        (w : World)
        → Returns (assert_that (leb level 7) w).0 × Stays w (assert_that (leb level 7) w).1
    in_table w = rw (le→leb level 7 h) (tt, Stays-refl w)

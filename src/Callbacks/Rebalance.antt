-- ===== src/Callbacks/Rebalance.antt =====
-- A rebalance always ends with a call of rd_kafka_assign, the application's or the fallback's.
pub mod Calls
use confluent_kafka_python.Base.{
  ℕ, zero, suc, ◌+◌, not, ◌==◌, ◌≤◌, ◌≡◌, refl, sym, ap, ◌∙◌, subst, Bool, true, false, Option,
  none, some, List, [], ◌∷◌, arith, if◌then◌else◌, Bool-cases, Option-cases, inl, inr,
}
use Prim.Native.Nat.{max}
use confluent_kafka_python.Base.Int.{ℤ, eqb_ℤ}
use confluent_kafka_python.Object.{Object, client, list, application}
use confluent_kafka_python.World.{
  World, Env, RdCall, CPart, Act, assigns, unassigns, Script, M, Result, ok, null, fault, pure,
  gets, modify, when, set_error, assert_that, ◌>>=◌, ◌>>◌,
}
use confluent_kafka_python.World.Laws.{Moves, Moves->>=, Returns, Stays}
use confluent_kafka_python.Consumer.Assignment.Keeps.{IsHeld}
use confluent_kafka_python.Callbacks.Served.Group.{rebalance_body-Completes}
use confluent_kafka_python.CallState
use confluent_kafka_python.TopicPartition.Lists.{py_to_c_parts, collect, c_parts_to_py}
use confluent_kafka_python.Consumer.Assignment.{assign, unassign}
use confluent_kafka_python.Callbacks.Invoke.{
  do_act, do_acts, after_act, after_acts, attempt, clear_error, end_script, invoke, call_arg,
}
use confluent_kafka_python.Callbacks.Consumer.{
  rebalance_body, rebalance_cb, call_rebalance, run_callback, fallback, err_assign,
  rebalance_callback,
}
use confluent_kafka_python.Callbacks.Released.{IsReleased, called, within_lem}
use Calls.{assign_calls, Counts, call_rebalance_lem}

-- The fallback brings the number of calls up to one.
fallback_lem :
    (err : ℤ) (parts : List CPart) (w : World)
    → ((fallback err parts w).0 ≡ ok tt)
      × (assign_calls (fallback err parts w).1.calls + w.rebalance_assigned
          ≡ assign_calls w.calls + max 1 w.rebalance_assigned)
      × ((fallback err parts w).1.rebalance_assigned ≡ w.rebalance_assigned)
fallback_lem err parts w = ground arith

body_lem :
    (env : Env) (err : ℤ) (parts : List CPart) (w : World)
    → IsHeld w
    → env.builds w.calls ≡ true
    → ((rebalance_body env err parts w).0 ≡ ok tt)
      × (assign_calls (rebalance_body env err parts w).1.calls
          ≡ assign_calls w.calls + max 1 (rebalance_body env err parts w).1.rebalance_assigned)
body_lem env err parts w p built =
    let w0 : World = record w { rebalance_assigned = 0 } in
    let f = rebalance_callback err w0 in
    let k = call_rebalance_lem env parts f w0 p built in
    go w0 (call_rebalance env parts f w0) refl k.0 k.1
  where
    go :
        (w0 : World) (r : Result Bool × World)
        → assign_calls w0.calls + 0 ≡ assign_calls w.calls + w0.rebalance_assigned
        → r.0 ≡ ok true
        → Counts w0 r.1
        → let x : Result (Unit {0}) × World = elim r.0 [
          | ok a ↦ when a (fallback err parts) r.1
          | null ↦ (null, r.1)
          | fault ↦ (fault, r.1)
        ] in
          (x.0 ≡ ok tt)
          × (assign_calls x.1.calls ≡ assign_calls w.calls + max 1 x.1.rebalance_assigned)
    go w0 (ok true, w1) e h c = ground (arith, fallback_lem err parts w1)
    go w0 (ok false, w1) e h c = absurd (cc)
    go w0 (null, w1) e h c = absurd (cc)
    go w0 (fault, w1) e h c = absurd (cc)

body-Stays :
    (env : Env) (err : ℤ) (parts : List CPart) (w : World)
    → IsHeld w
    → Stays w (rebalance_body env err parts w).1
body-Stays env err parts w p = (rebalance_body-Completes env err parts w p).1

rebalance_cb_lem :
    (env : Env) (err : ℤ) (parts : List CPart) (w : World)
    → IsReleased w
    → env.builds w.calls ≡ true
    → rebalance_cb env err parts w
      ≡ (ok tt, record (rebalance_body env err parts (called w)).1 { gil = false; saved = true })
unfolding rebalance_cb CallState.crash
rebalance_cb_lem env err parts w p built =
    let s = body-Stays env err parts (called w) (p.0, refl) in
    within_lem (rebalance_body env err parts) w (rebalance_body env err parts (called w)).1 p
      (pair (rebalance_body env err parts (called w))
        (body_lem env err parts (called w) (p.0, refl) built).0)
      s.saved s.gil
  where
    pair : (r : Result (Unit {0}) × World) → r.0 ≡ ok tt → r ≡ (ok tt, r.1)
    pair r e = ground arith

-- Consumer_rebalance_cb, called by librdkafka, with arguments for the application that can be
-- built: whatever the application's callback does, the calls of rd_kafka_assign made meanwhile are
-- as many as the application made by assign() and unassign(), or one where it made none; and the
-- callback comes to its end with the lock released.
pub rebalance_cb-assigns :
    (env : Env) (err : ℤ) (parts : List CPart) (w : World)
    → IsReleased w
    → env.builds w.calls ≡ true
    → let (r, w') = rebalance_cb env err parts w in
      (r ≡ ok tt)
      × IsReleased w'
      × (assign_calls w'.calls ≡ assign_calls w.calls + max 1 w'.rebalance_assigned)
rebalance_cb-assigns env err parts w p built =
    subst
      (λ r.
        (r.0 ≡ ok tt)
        × IsReleased r.1
        × (assign_calls r.1.calls ≡ assign_calls w.calls + max 1 r.1.rebalance_assigned))
      (sym (rebalance_cb_lem env err parts w p built))
      (
        refl,
        (s.rk ∙ p.0, refl, s.tls ∙ p.2, refl),
        (body_lem env err parts (called w) (p.0, refl) built).1,
      )
  where
    s : Stays (called w) (rebalance_body env err parts (called w)).1
    s = body-Stays env err parts (called w) (p.0, refl)

-- Where no callback is set for the event, Consumer_rebalance_cb, called by librdkafka, makes one call:
-- it assigns the new partitions on an assignment, and removes the assignment on every other event.
pub rebalance_cb-fallback :
    (env : Env) (err : ℤ) (parts : List CPart) (w : World)
    → IsReleased w
    → rebalance_callback err w ≡ none
    → (rebalance_cb env err parts w).1.calls
      ≡ RdCall.assign (if eqb_ℤ err err_assign then some parts else none) ∷ w.calls
unfolding rebalance_cb
rebalance_cb-fallback env err parts w p e =
    ap (λ r. r.1.calls)
      (within_lem (rebalance_body env err parts) w after p
        (subst (λ f. run f ≡ (ok tt, after)) (sym e) refl) refl refl)
  where
    start : World
    start = record (called w) { rebalance_assigned = 0 }

    after : World
    after = record start {
      calls = RdCall.assign (if eqb_ℤ err err_assign then some parts else none) ∷ w.calls;
    }

    run : Option Object → Result (Unit {0}) × World
    run f = (call_rebalance env parts f >>= λ more. when more (fallback err parts)) start

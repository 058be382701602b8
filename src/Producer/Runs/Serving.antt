-- ===== src/Producer/Runs/Serving.antt =====
-- Producer_poll and Producer_flush.
use confluent_kafka_python.Base.{
  ◌≡◌, ◌≢◌, refl, sym, subst, inl, inr, Bool, true, false, Option, if◌then◌else◌, ◌∷◌, arith,
  Option-cases,
}
use confluent_kafka_python.Base.Int.{ℤ, negsuc, eqb_ℤ}
use confluent_kafka_python.Object.{Object, int}
use confluent_kafka_python.Format.{Seconds, default_seconds, timeout_ms}
use confluent_kafka_python.World.{
  World, Env, RdCall, M, Result, ok, null, fault, parsed, pure, return_null, ◌>>=◌,
}
use confluent_kafka_python.World.Laws.{marks, Returns}
use confluent_kafka_python.CallState
use confluent_kafka_python.Callbacks.{call_serving}
use confluent_kafka_python.Consumer.Offsets.{or_else}
use confluent_kafka_python.Consumer.Balance.Blocking.{finish_quiet, finish_signal}
use confluent_kafka_python.Admin.Accounts.{IsOpen, begin_lem}
use confluent_kafka_python.Producer.Serve.{poll, poll0, served, flush, end_flush}
use confluent_kafka_python.Producer.Reports.{AreReported, left}
use confluent_kafka_python.Producer.Reports.Freed.{Leaves, bind}
use confluent_kafka_python.Producer.Ends.{events_of, inside, calling, serving-Leaves}
use confluent_kafka_python.Producer.Flight.{poll-IsServing, flush-IsServing, IsServing}
use confluent_kafka_python.Producer.Runs.{Releases, Runs, report-Steps, report-IsTracked}

-- Behind CallState_end of the call `c`, which served its events.
record Served (env : Env) (c : RdCall) (w v : World) : Type 0 where
  pub releases : Releases w v
  pub next_msgstate : v.next_msgstate ≡ w.next_msgstate
  pub msgstates : v.msgstates ≡ left w.msgstates (events_of env c w)
  pub marked : marks v.calls ≡ marks (c ∷ w.calls)

finish-Served :
    (env : Env) (c : RdCall) (w u : World)
    → w.rk ≡ true
    → Leaves (left w.msgstates (events_of env c w)) (calling c w) u
    → (fine : Bool) × (v : World) × (CallState.finish env u ≡ (ok fine, v)) × Served env c w v
finish-Served env c w u h l = elim (Option-cases (env.signal u.calls)) [
  | inl q ↦ (_, _, finish_quiet env u l.gil q, ground arith)
  | inr (k, q) ↦ (_, _, finish_signal env u k l.gil q, ground arith)
]

Served-Runs :
    {A : Type 0} (env : Env) (c : RdCall) (r : Result A) (w v : World)
    → IsServing env c
    → AreReported w.msgstates (events_of env c w)
    → Served env c w v
    → r ≢ fault
    → Runs env w (r, v)
Served-Runs env c r w v i a s n = record {
  survives = n;
  releases = s.releases;
  steps = report-Steps (events_of env c w) w v a s.next_msgstate s.msgstates;
  tracks = report-IsTracked env c w v i s.msgstates s.marked;
}

-- A call that serves callbacks, and what a method does behind it.
serving-Runs :
    {A : Type 0} (env : Env) (c : RdCall) (k : Bool → M A) (w : World)
    → IsOpen w
    → AreReported w.msgstates (events_of env c w)
    → ((fine : Bool) (v : World) → Served env c w v → Runs env w (k fine v))
    → Runs env w (bind (call_serving env c (inside w)) (λ _. CallState.finish env >>= k))
serving-Runs env c k w h a good = go (call_serving env c (inside w)) (serving-Leaves env c w h.rk a)
  where
    go :
        (r : Result (Unit {0}) × World)
        → Returns r.0 × Leaves (left w.msgstates (events_of env c w)) (calling c w) r.1
        → Runs env w (bind r (λ _. CallState.finish env >>= k))
    go (ok x, u) l =
        let (fine, v, e, s) = finish-Served env c w u h.rk l.1 in
        subst (λ r. Runs env w (bind r k)) (sym e) (good fine v s)
    go (null, u) l = absurd l.0
    go (fault, u) l = absurd l.0

pub flush-Runs :
    (env : Env) (t : Option Seconds) (w : World)
    → IsOpen w
    → AreReported w.msgstates
        (events_of env (RdCall.flush (timeout_ms (or_else t default_seconds))) w)
    → Runs env w (flush env (parsed t) w)
unfolding flush
flush-Runs env t w h a =
    subst
      (λ r.
        Runs env w
          (bind r (λ _. call_serving env c >>= λ _. CallState.finish env >>= end_flush env)))
      (sym (begin_lem w h.gil)) (serving-Runs env c (end_flush env) w h a after)
  where
    c : RdCall
    c = RdCall.flush (timeout_ms (or_else t default_seconds))

    after : (fine : Bool) (v : World) → Served env c w v → Runs env w (end_flush env fine v)
    after true v s =
        Served-Runs env c _ w v (flush-IsServing env (timeout_ms (or_else t default_seconds))) a s
          (λ x. cc)
    after false v s =
        Served-Runs env c _ w v (flush-IsServing env (timeout_ms (or_else t default_seconds))) a s
          (λ x. cc)

poll0-Runs :
    (env : Env) (timeout : ℤ) (w : World)
    → IsOpen w
    → AreReported w.msgstates (events_of env (RdCall.poll timeout) w)
    → Runs env w (poll0 env timeout w)
unfolding poll0
poll0-Runs env timeout w h a =
    subst (λ r. Runs env w (bind r (λ _. rest))) (sym (begin_lem w h.gil))
      (serving-Runs env (RdCall.poll timeout)
        (λ fine. pure (if fine then env.code w.calls (RdCall.poll timeout) else negsuc 0)) w h a
        (λ fine v s.
          Served-Runs env (RdCall.poll timeout) _ w v (poll-IsServing env timeout) a s (λ x. cc)))
  where
    rest : M ℤ
    rest u = bind (call_serving env (RdCall.poll timeout) u) (λ _. CallState.finish env >>= λ fine.
        pure (if fine then env.code u.calls (RdCall.poll timeout) else negsuc 0))

pub poll-Runs :
    (env : Env) (t : Option Seconds) (w : World)
    → IsOpen w
    → AreReported w.msgstates
        (events_of env (RdCall.poll (timeout_ms (or_else t default_seconds))) w)
    → Runs env w (poll env (parsed t) w)
unfolding poll
poll-Runs env t w h a =
    go (poll0 env (timeout_ms (or_else t default_seconds)) w)
      (poll0-Runs env (timeout_ms (or_else t default_seconds)) w h a)
  where
    by_result :
        (b : Bool) (r : ℤ) (u : World)
        → Runs env w (ok r, u)
        → (let m : M Object = elim b [ true ↦ return_null | false ↦ pure (int r) ] in
            Runs env w (m u))
    by_result true r u k = record {
      survives = λ x. cc;
      releases = k.releases;
      steps = k.steps;
      tracks = k.tracks;
    }
    by_result false r u k = record {
      survives = λ x. cc;
      releases = k.releases;
      steps = k.steps;
      tracks = k.tracks;
    }

    go : (r : Result ℤ × World) → Runs env w r → Runs env w (bind r served)
    go (ok r, u) k = by_result (eqb_ℤ r (negsuc 0)) r u k
    go (null, u) k = record {
      survives = λ x. cc;
      releases = k.releases;
      steps = k.steps;
      tracks = k.tracks;
    }
    go (fault, u) k = absurd (k.survives refl)

-- ===== src/Producer/Reports.antt =====
-- The delivery reports that a Producer's poll() and flush() serve.
pub mod Freed
use confluent_kafka_python.Base.{
  ℕ, ◌≡◌, ◌≢◌, refl, sym, ◌∙◌, subst, inl, inr, Bool, true, false, not, ◌&&◌, Option, none, some,
  List, [], ◌∷◌, arith, Option-cases,
}
use confluent_kafka_python.Base.Int.{pos, eqb_ℤ}
use confluent_kafka_python.Object.{Object}
use confluent_kafka_python.Message.{new0, as_object, error_object}
use confluent_kafka_python.World.{
  World, Env, Event, error_event, throttle_event, stats_event, log_event, delivery_event,
  commit_event, rebalance_event, CMessage, M, Result, ok, null, fault, pure, when, ◌>>=◌, ◌>>◌,
}
use confluent_kafka_python.World.Laws.{Stays, Stays-refl, Completes, Returns}
use confluent_kafka_python.Consumer.Assignment.Keeps.{IsHeld}
use confluent_kafka_python.Callbacks.{
  States, find, remove, read_msgstate, msgstate_destroy, deliver, report, with_state, dr_msg_cb,
  dispatch, serve, build_failed, run_callback,
}
use confluent_kafka_python.Callbacks.Released.{IsReleased, called, gets-Completes, within_lem}
use confluent_kafka_python.Callbacks.Served.{IsServable, dispatch-Completes}
use confluent_kafka_python.Callbacks.Served.Group.{run_callback-Completes, build_failed-Completes}
use confluent_kafka_python.Producer.Reports.Freed.{Leaves, Leaves-trans, bind, dr_lem}

-- The msgstate that the report of an event carries.
abbrev pub state_of : Event → Option ℕ
state_of (delivery_event rkm) = rkm.msgstate
state_of _ = none

-- What librdkafka serves a Producer: reports of live msgstates, one for each, and log levels of
-- syslog's.
abbrev pub Admits : States → Event → Type 0
Admits ms e = elim (state_of e) [ none ↦ IsServable e | some n ↦ find n ms ≢ none ]

abbrev pub after : States → Event → States
after ms e = elim (state_of e) [ none ↦ ms | some n ↦ remove n ms ]

abbrev pub AreReported : States → List Event → Type 0
AreReported ms [] = Unit
AreReported ms (e ∷ es) = Admits ms e × AreReported (after ms e) es

-- The msgstates that are left behind the events.
abbrev pub left : States → List Event → States
left ms [] = ms
left ms (e ∷ es) = left (after ms e) es

Serves : States → World → Result (Unit {0}) × World → Type 0
Serves ms w r = Returns r.0 × Leaves ms w r.1

quiet :
    (env : Env) (e : Event) (w : World)
    → IsReleased w
    → IsServable e
    → Serves w.msgstates w (dispatch env e w)
unfolding Serves
quiet env e w p h = let k = dispatch-Completes env e h w p in (k.0, ground arith)

dispatch-Serves :
    (env : Env) (e : Event) (w : World)
    → IsReleased w
    → Admits w.msgstates e
    → Serves (after w.msgstates e) w (dispatch env e w)
unfolding dispatch Serves
dispatch-Serves env (delivery_event rkm) w p h = elim (Option-cases rkm.msgstate) [
  | inl e ↦
      subst
        (λ m.
          Serves (elim m [ none ↦ w.msgstates | some n ↦ remove n w.msgstates ]) w
            (dr_msg_cb env rkm w))
        (sym e) (quiet env (delivery_event rkm) w p e)
  | inr (n, e) ↦
      subst
        (λ m.
          Serves (elim m [ none ↦ w.msgstates | some n ↦ remove n w.msgstates ]) w
            (dr_msg_cb env rkm w))
        (sym e)
        (dr_lem env rkm n w p e (
          subst
            (λ m. elim m [
              | none ↦ IsServable (delivery_event rkm)
              | some n ↦ find n w.msgstates ≢ none
            ])
            e h))
]
dispatch-Serves env (error_event err reason) w p h = quiet env (error_event err reason) w p h
dispatch-Serves env (throttle_event broker id ms) w p h =
    quiet env (throttle_event broker id ms) w p h
dispatch-Serves env (stats_event json) w p h = quiet env (stats_event json) w p h
dispatch-Serves env (log_event level fac buf) w p h = quiet env (log_event level fac buf) w p h
dispatch-Serves env (commit_event err parts) w p h = quiet env (commit_event err parts) w p h
dispatch-Serves env (rebalance_event err parts) w p h = quiet env (rebalance_event err parts) w p h

-- Whatever events librdkafka serves a Producer in one call, with a report for each of some live
-- msgstates: all callbacks come to their end, the msgstates that were reported are freed and no
-- other one, and the lock, the CallState and all else that is owned are as before.
pub serve-reports :
    (env : Env) (es : List Event) (w : World)
    → AreReported w.msgstates es
    → IsReleased w
    → Returns (serve env es w).0 × Leaves (left w.msgstates es) w (serve env es w).1
unfolding serve Serves
serve-reports env [] w h p = (tt, ground arith)
serve-reports env (e ∷ es) w h p =
    go (dispatch env e w) (dispatch-Serves env e w p h.0) (λ u. serve-reports env es u)
  where
    go :
        (r : Result (Unit {0}) × World)
        → Serves (after w.msgstates e) w r
        → ((u : World)
            → AreReported u.msgstates es
            → IsReleased u
            → Serves (left u.msgstates es) u (serve env es u))
        → Serves (left (after w.msgstates e) es) w (bind r (λ _. serve env es))
    go (ok a, u) k next =
        let m = k.1.msgstates in
        let l =
          next u (subst (λ ms. AreReported ms es) (sym m) h.1)
            (k.1.rk ∙ p.0, k.1.gil ∙ p.1, k.1.tls ∙ p.2, k.1.saved ∙ p.3) in
        (l.0, Leaves-trans k.1 (subst (λ ms. Leaves (left ms es) u (serve env es u).1) m l.1))
    go (null, u) k next = absurd k.0
    go (fault, u) k next = absurd k.0

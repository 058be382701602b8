-- ===== src/Callbacks/Delivery.antt =====
-- The per-message state of a Producer and its delivery callback, dr_msg_cb of
-- confluent_kafka/src/Producer.c.
use confluent_kafka_python.Base.{
  ℕ, suc, true, false, not, ◌&&◌, Option, none, some, List, [], ◌∷◌, if◌then◌else◌, ◌==◌,
}
use confluent_kafka_python.Base.Int.{pos, eqb_ℤ}
use confluent_kafka_python.Object.{Object}
use confluent_kafka_python.Message.{new0, as_object, error_object}
use confluent_kafka_python.World.{CMessage, Env, M, ok, fault, pure, gets, when, ◌>>=◌, ◌>>◌}
use confluent_kafka_python.CallState
use confluent_kafka_python.Callbacks.Consumer.{build_failed, run_callback}

abbrev pub States : Type 0
States = List (ℕ × Option Object)

unfoldable pub find : ℕ → States → Option (Option Object)
find n [] = none
find n ((k, cb) ∷ ms) = if n == k then some cb else find n ms

unfoldable pub remove : ℕ → States → States
remove n [] = []
remove n ((k, cb) ∷ ms) = if n == k then ms else (k, cb) ∷ remove n ms

-- Producer_msgstate_new, which allocates whether or not there is a callback.
unfoldable pub msgstate_new : Option Object → M ℕ
msgstate_new dr_cb w = (
  ok w.next_msgstate,
  record w {
    msgstates = (w.next_msgstate, dr_cb) ∷ w.msgstates;
    next_msgstate = suc w.next_msgstate;
  },
)

-- Producer_msgstate_destroy; what is freed already ends the process.
unfoldable pub msgstate_destroy : ℕ → M (Unit {0})
unfolding find remove
msgstate_destroy n w = elim (find n w.msgstates) [
  | none ↦ (fault, w)
  | some _ ↦ (ok tt, record w { msgstates = remove n w.msgstates })
]

-- A read through the pointer.
abbrev pub read_msgstate : ℕ → M (Option Object)
read_msgstate n w = elim (find n w.msgstates) [ none ↦ (fault, w) | some cb ↦ (ok cb, w) ]

abbrev pub deliver : Env → CMessage → Object → M (Unit {0})
deliver env rkm f = do
  type ← gets (λ w. w.client_type)
  let m = new0 env.err2str type rkm
  built ← gets (λ w. env.builds w.calls)
  elim built [
    | false ↦ build_failed env
    | true ↦ run_callback env f (error_object m.error ∷ as_object m ∷ [])
  ]

abbrev pub report : Env → CMessage → Option Object → M (Unit {0})
report env rkm none = pure tt
report env rkm (some f) = do
  only_error ← gets (λ w. w.dr_only_error)
  when (not (only_error && eqb_ℤ rkm.err (pos 0))) (deliver env rkm f)

abbrev pub with_state : Env → CMessage → ℕ → M (Unit {0})
with_state env rkm n =
    CallState.within (do dr_cb ← read_msgstate n; report env rkm dr_cb; msgstate_destroy n)

unfoldable pub dr_msg_cb : Env → CMessage → M (Unit {0})
unfolding CallState.crash find msgstate_destroy
dr_msg_cb env rkm = elim rkm.msgstate [ none ↦ pure tt | some n ↦ with_state env rkm n ]

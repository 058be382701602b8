-- ===== src/Producer/Reports/Freed.antt =====
-- One delivery report: dr_msg_cb on a live msgstate comes to its end and frees it.
use confluent_kafka_python.Base.{
  ℕ, ◌≡◌, ◌≢◌, refl, sym, subst, inl, inr, Bool, true, false, not, ◌&&◌, Option, none, some, [],
  ◌∷◌, arith, Option-cases,
}
use confluent_kafka_python.Base.Int.{pos, eqb_ℤ}
use confluent_kafka_python.Object.{Object}
use confluent_kafka_python.Message.{new0, as_object, error_object}
use confluent_kafka_python.World.{
  World, Env, CMessage, M, Result, ok, null, fault, pure, when, ◌>>=◌, ◌>>◌,
}
use confluent_kafka_python.World.Laws.{marks, Stays, Stays-refl, Completes, Returns}
use confluent_kafka_python.Consumer.Assignment.Keeps.{IsHeld}
use confluent_kafka_python.Callbacks.{
  States, find, remove, read_msgstate, msgstate_destroy, deliver, report, with_state, dr_msg_cb,
  build_failed, run_callback,
}
use confluent_kafka_python.Callbacks.Released.{IsReleased, called, gets-Completes, within_lem}
use confluent_kafka_python.Callbacks.Served.Group.{run_callback-Completes, build_failed-Completes}

deliver-Completes : (env : Env) (rkm : CMessage) (f : Object) → Completes IsHeld (deliver env rkm f)
deliver-Completes env rkm f =
    gets-Completes (λ w. w.client_type) _
      λ type. gets-Completes (λ w. env.builds w.calls) _ (choose type)
  where
    choose :
        (type : _) (built : Bool)
        → Completes IsHeld (elim built [
          | false ↦ build_failed env
          | true ↦ run_callback env f (
              error_object (new0 env.err2str type rkm).error
              ∷ as_object (new0 env.err2str type rkm)
              ∷ [])
        ])
    choose type true = run_callback-Completes env f _
    choose type false = build_failed-Completes env

report-Completes :
    (env : Env) (rkm : CMessage) (cb : Option Object) → Completes IsHeld (report env rkm cb)
report-Completes env rkm none = λ w p. (tt, Stays-refl w)
report-Completes env rkm (some f) =
    gets-Completes (λ w. w.dr_only_error) _ λ only. choose (not (only && eqb_ℤ rkm.err (pos 0)))
  where
    choose : (b : Bool) → Completes IsHeld (when b (deliver env rkm f))
    choose true = deliver-Completes env rkm f
    choose false = λ w p. (tt, Stays-refl w)

-- The states `w` and `w'` agree but for the live msgstates, which are then `ms`.
pub record Leaves (ms : States) (w w' : World) : Type 0 where
  pub gil : w'.gil ≡ w.gil
  pub tls : w'.tls ≡ w.tls
  pub saved : w'.saved ≡ w.saved
  pub rk : w'.rk ≡ w.rk
  pub lists : w'.lists ≡ w.lists
  pub messages : w'.messages ≡ w.messages
  pub lib_errors : w'.lib_errors ≡ w.lib_errors
  pub metadatas : w'.metadatas ≡ w.metadatas
  pub headers : w'.headers ≡ w.headers
  pub msgstates : w'.msgstates ≡ ms
  pub next_msgstate : w'.next_msgstate ≡ w.next_msgstate
  pub held : w'.held ≡ w.held
  pub marked : marks w'.calls ≡ marks w.calls

pub Leaves-trans : {ms ns : States} {u v w : World} → Leaves ms u v → Leaves ns v w → Leaves ns u w
Leaves-trans h k = ground arith

abbrev pub bind : {A B : Type 0} → Result A × World → (A → M B) → Result B × World
bind r k = elim r.0 [ ok a ↦ k a r.1 | null ↦ (null, r.1) | fault ↦ (fault, r.1) ]

destroyed :
    (w u : World) (n : ℕ) (cb : Option Object)
    → find n w.msgstates ≡ some cb
    → u.msgstates ≡ w.msgstates
    → msgstate_destroy n u ≡ (ok tt, record u { msgstates = remove n w.msgstates })
unfolding msgstate_destroy
destroyed w u n cb h e = ground arith

-- The body of dr_msg_cb on a live msgstate.
body_lem :
    (env : Env) (rkm : CMessage) (n : ℕ) (cb : Option Object) (w : World)
    → IsHeld w
    → find n w.msgstates ≡ some cb
    → (u : World) × Stays w u
      × ((read_msgstate n >>= λ cb. report env rkm cb >> msgstate_destroy n) w
          ≡ (ok tt, record u { msgstates = remove n w.msgstates }))
body_lem env rkm n cb w p h =
    let k = report-Completes env rkm cb w p in
    (
      (report env rkm cb w).1,
      k.1,
      subst
          (λ r.
            bind r (λ cb. report env rkm cb >> msgstate_destroy n)
            ≡ (ok tt, record (report env rkm cb w).1 { msgstates = remove n w.msgstates }))
          (sym (was_read w h)) (go (report env rkm cb w) k),
    )
  where
    was_read : (w : World) → find n w.msgstates ≡ some cb → read_msgstate n w ≡ (ok cb, w)
    was_read w h = ground arith

    go :
        (r : Result (Unit {0}) × World)
        → Returns r.0 × Stays w r.1
        → bind r (λ _. msgstate_destroy n)
          ≡ (ok tt, record r.1 { msgstates = remove n w.msgstates })
    go (ok a, u) k = destroyed w u n cb h k.1.msgstates
    go (null, u) k = absurd k.0
    go (fault, u) k = absurd k.0

pub dr_lem :
    (env : Env) (rkm : CMessage) (n : ℕ) (w : World)
    → IsReleased w
    → rkm.msgstate ≡ some n
    → find n w.msgstates ≢ none
    → Returns (dr_msg_cb env rkm w).0 × Leaves (remove n w.msgstates) w (dr_msg_cb env rkm w).1
unfolding dr_msg_cb
dr_lem env rkm n w p e live =
    subst
      (λ m.
        Good
          (let a : M (Unit {0}) = elim m [ none ↦ pure tt | some n ↦ with_state env rkm n ] in a w))
      (sym e)
      (elim (Option-cases (find n w.msgstates)) [
        | inl h ↦ absurd (live h)
        | inr (cb, h) ↦ state cb h
      ])
  where
    Good : Result (Unit {0}) × World → Type 0
    Good r = Returns r.0 × Leaves (remove n w.msgstates) w r.1

    state : (cb : Option Object) → find n w.msgstates ≡ some cb → Good (with_state env rkm n w)
    state cb h =
        let k = body_lem env rkm n cb (called w) (p.0, refl) h in
        let s = k.1 in
        subst Good
          (sym (
            within_lem (read_msgstate n >>= λ cb. report env rkm cb >> msgstate_destroy n) w
              (record k.0 { msgstates = remove n w.msgstates }) p k.2 s.saved s.gil))
          (tt, ground arith)

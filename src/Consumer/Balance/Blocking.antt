-- ===== src/Consumer/Balance/Blocking.antt =====
-- The parts of a method around a blocking call: CallState_begin, the call with the callbacks that
-- it serves, CallState_end.
use confluent_kafka_python.Base.{
  ℕ, ◌+◌, ◌≡◌, sym, subst, Bool, true, false, not, ltb, none, some, List, ◌∷◌, arith, Option-cases,
  inl, inr,
}
use confluent_kafka_python.Object.{application}
use confluent_kafka_python.World.{
  World, Env, RdCall, Event, M, Result, ok, null, fault, call, ◌>>=◌,
}
use confluent_kafka_python.World.Laws.{Stays, Returns}
use confluent_kafka_python.CallState
use confluent_kafka_python.Callbacks.{call_serving, serve}
use confluent_kafka_python.Callbacks.Served.{AreServable, serve-Completes}
use confluent_kafka_python.Consumer.Balance.{IsReady, Behaves}
use confluent_kafka_python.Consumer.Balance.Rules.{Ends, bind}

-- Inside the blocking call of a method that was called at `w`, with `n` messages taken over; `q` tells
-- whether the queue is still there.
pub record Inside (q : Bool) (n : ℕ) (w u : World) : Type 0 where
  pub rk : u.rk ≡ true
  pub gil : u.gil ≡ false
  pub tls : u.tls ≡ true
  pub saved : u.saved ≡ true
  pub rkqu : u.rkqu ≡ q
  pub lists : u.lists ≡ w.lists
  pub messages : u.messages ≡ w.messages + n
  pub lib_errors : u.lib_errors ≡ w.lib_errors
  pub metadatas : u.metadatas ≡ w.metadatas
  pub headers : u.headers ≡ w.headers
  pub msgstates : u.msgstates ≡ w.msgstates
  pub held : u.held ≡ w.held

-- Behind it.
pub record Outside (n : ℕ) (w u : World) : Type 0 where
  pub ready : IsReady u
  pub lists : u.lists ≡ w.lists
  pub messages : u.messages ≡ w.messages + n
  pub lib_errors : u.lib_errors ≡ w.lib_errors
  pub metadatas : u.metadatas ≡ w.metadatas
  pub headers : u.headers ≡ w.headers
  pub msgstates : u.msgstates ≡ w.msgstates
  pub held : u.held ≡ w.held

-- The action returns, and what it returns and leaves satisfies `Q`.
abbrev pub Post : {A : Type 0} → (A → World → Type 0) → Result A × World → Type 0
Post Q (ok a, u) = Q a u
Post Q (null, u) = ⊥
Post Q (fault, u) = ⊥

module _ {A B : Type 0} (Q : A → World → Type 0) (w : World) where
  pub Post->>= :
      (m : M A) (k : A → M B) (u : World)
      → Post Q (m u)
      → ((a : A) (v : World) → Q a v → Ends w (k a v))
      → Ends w ((m >>= k) u)
  Post->>= m k u hm hk = go (m u) hm
    where
      go : (r : Result A × World) → Post Q r → Ends w (bind r k)
      go (ok a, v) q = hk a v q
      go (null, v) q = absurd q
      go (fault, v) q = absurd q

pub begin-Inside : (w : World) → IsReady w → Post (λ _ u. Inside true 0 w u) (CallState.begin w)
unfolding CallState.begin
begin-Inside w h = subst (Post (λ _ u. Inside true 0 w u)) (sym (began w h.gil)) (ground arith)
  where
    began :
        (w : World)
        → w.gil ≡ true
        → CallState.begin w
          ≡ (ok tt, record w { gil = false; saved = true; crashed = 0; tls = true })
    began w e = ground arith

-- The callbacks leave the method where it was.
pub serve-Inside :
    (env : Env) (es : List Event) (q : Bool) (w u : World)
    → AreServable es
    → Inside q 0 w u
    → Post (λ _ v. Inside q 0 w v) (serve env es u)
serve-Inside env es q w u a h =
    go (serve env es u) (serve-Completes env es a u (h.rk, h.gil, h.tls, h.saved))
  where
    go :
        (r : Result (Unit {0}) × World) → Returns r.0 × Stays u r.1 → Post (λ _ v. Inside q 0 w v) r
    go (ok a, v) s = ground arith
    go (null, v) s = absurd s.0
    go (fault, v) s = absurd s.0

call-Inside :
    (c : RdCall) (q : Bool) (w u : World)
    → Inside q 0 w u
    → call c u ≡ (ok tt, record u { calls = c ∷ u.calls })
call-Inside c q w u h = ground arith

pub call_serving-Inside :
    (env : Env) (c : RdCall) (q : Bool) (w u : World)
    → Behaves env
    → Inside q 0 w u
    → Post (λ _ v. Inside q 0 w v) (call_serving env c u)
unfolding call_serving
call_serving-Inside env c q w u b h =
    subst (λ r. Post (λ _ v. Inside q 0 w v) (bind r (λ _. serve env (env.events u.calls c))))
      (sym (call-Inside c q w u h))
      (serve-Inside env (env.events u.calls c) q w (record u { calls = c ∷ u.calls })
        (b.servable u.calls c) (ground arith))

pub finish_quiet :
    (env : Env) (u : World)
    → u.gil ≡ false
    → env.signal u.calls ≡ none
    → CallState.finish env u ≡ (ok (not (ltb 0 u.crashed)), record u { tls = false; gil = true })
unfolding CallState.finish
finish_quiet env u g e = ground arith

pub finish_signal :
    (env : Env) (u : World) (k : ℕ)
    → u.gil ≡ false
    → env.signal u.calls ≡ some k
    → CallState.finish env u
      ≡ (ok false, record u { tls = false; gil = true; error = some (application k) })
unfolding CallState.finish
finish_signal env u k g e = ground arith

pub finish-Outside :
    (env : Env) (n : ℕ) (w u : World)
    → Inside true n w u
    → Post (λ _ v. Outside n w v) (CallState.finish env u)
finish-Outside env n w u h = elim (Option-cases (env.signal u.calls)) [
  | inl e ↦ subst (Post (λ _ v. Outside n w v)) (sym (finish_quiet env u h.gil e)) (ground arith)
  | inr (k, e) ↦
      subst (Post (λ _ v. Outside n w v)) (sym (finish_signal env u k h.gil e)) (ground arith)
]

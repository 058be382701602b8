-- ===== src/Producer/Ends.antt =====
-- The end of a transaction's blocking call.
use confluent_kafka_python.Base.{
  ℕ, suc, ◌≡◌, refl, sym, subst, ◌⊎◌, inl, inr, Bool, true, false, not, ltb, Option, none, some,
  List, ◌∷◌, arith, Option-cases,
}
use confluent_kafka_python.Object.{Object, none_object, Exception, application, kafka_exception}
use confluent_kafka_python.KafkaError.{LibError, new_from_error}
use confluent_kafka_python.Format.{Seconds, default_seconds, timeout_ms}
use confluent_kafka_python.World.{
  World, Env, Event, RdCall, M, Result, ok, null, fault, parsed, pure, call, destroy_metadata,
  destroy_list, ◌>>=◌, ◌>>◌,
}
use confluent_kafka_python.World.Laws.{marks, Returns}
use confluent_kafka_python.CallState
use confluent_kafka_python.Callbacks.{States, call_serving, serve}
use confluent_kafka_python.Consumer.Offsets.{or_else}
use confluent_kafka_python.Consumer.Balance.Blocking.{finish_quiet, finish_signal}
use confluent_kafka_python.Producer.Reports.{AreReported, left, serve-reports}
use confluent_kafka_python.Producer.Reports.Freed.{Leaves, bind}
use confluent_kafka_python.Producer.Transaction.{
  own_error, end_transaction, blocking, commit_transaction,
}

-- A signal's exception is set, or a callback ended the call.
abbrev pub Stopped : Env → World → Type 0
Stopped env u =
    ((k : ℕ) × (env.signal u.calls ≡ some k) × (u.error ≡ some (application k)))
    ⊎ (ltb 0 u.crashed ≡ true)

-- The exception of an error object is set.
abbrev pub Refused : Env → Option LibError → World → Type 0
Refused env error u =
    (e : LibError) × (error ≡ some e)
    × (u.error ≡ some (kafka_exception (new_from_error env.err2str e)))

-- None, without an error object; or NULL behind the exception of the error object, of a signal or of a
-- callback.
abbrev pub Concludes : Env → Option LibError → Result Object × World → Type 0
Concludes env error r =
    ((r.0 ≡ ok none_object) × (error ≡ none))
    ⊎ ((r.0 ≡ null) × (Refused env error r.1 ⊎ Stopped env r.1))

-- Behind a transaction's method: how it ends; the lock
-- is held, and all that is owned is as before but for the msgstates, which are `ms`; and `cs`
-- are the calls of librdkafka, but for assign and yield.
pub record Ended (env : Env) (cs : List RdCall) (ms : States) (error : Option LibError) (w : World)
    (r : Result Object × World) : Type 0 where
  pub result : Concludes env error r
  pub gil : r.1.gil ≡ true
  pub tls : r.1.tls ≡ false
  pub rk : r.1.rk ≡ true
  pub lists : r.1.lists ≡ w.lists
  pub messages : r.1.messages ≡ w.messages
  pub lib_errors : r.1.lib_errors ≡ w.lib_errors
  pub metadatas : r.1.metadatas ≡ w.metadatas
  pub headers : r.1.headers ≡ w.headers
  pub held : r.1.held ≡ w.held
  pub next_msgstate : r.1.next_msgstate ≡ w.next_msgstate
  pub msgstates : r.1.msgstates ≡ ms
  pub marked : marks r.1.calls ≡ marks cs

-- Inside the blocking call.
abbrev pub inside : World → World
inside w = record w { gil = false; saved = true; crashed = 0; tls = true }

abbrev pub calling : RdCall → World → World
calling c w = record (inside w) { calls = c ∷ w.calls }

abbrev with_error : Option LibError → ℕ → ℕ
with_error none n = n
with_error (some e) n = suc n

-- Behind the call and what is freed there: the error object is owned, and else what `w` owned.
record Behind (cs : List RdCall) (ms : States) (error : Option LibError) (w v : World)
    : Type 0 where
  pub gil : v.gil ≡ false
  pub rk : v.rk ≡ true
  pub lists : v.lists ≡ w.lists
  pub messages : v.messages ≡ w.messages
  pub lib_errors : v.lib_errors ≡ with_error error w.lib_errors
  pub metadatas : v.metadatas ≡ w.metadatas
  pub headers : v.headers ≡ w.headers
  pub held : v.held ≡ w.held
  pub next_msgstate : v.next_msgstate ≡ w.next_msgstate
  pub msgstates : v.msgstates ≡ ms
  pub marked : marks v.calls ≡ marks cs

end_Ended :
    (env : Env) (cs : List RdCall) (error : Option LibError) (fine : Bool) (x : Option Exception)
    (ms : States) (w v : World)
    → Behind cs ms error w v
    → (fine ≡ false → Stopped env (record v { error = x }))
    → Ended env cs ms error w
        (end_transaction env error fine (record v { tls = false; gil = true; error = x }))
end_Ended env cs none true x ms w v h s =
    let q : Concludes env none
        (end_transaction env none true (record v { tls = false; gil = true; error = x })) =
      inl (refl, refl) in
    ground (arith, q)
end_Ended env cs none false x ms w v h s =
    let q : Concludes env none
        (end_transaction env none false (record v { tls = false; gil = true; error = x })) =
      inr (refl, inr (s refl)) in
    ground (arith, q)
end_Ended env cs (some y) true x ms w v h s =
    let q : Concludes env (some y)
        (end_transaction env (some y) true (record v { tls = false; gil = true; error = x })) =
      subst
        (λ n. Concludes env (some y) (
          end_transaction env (some y) true
            (record v { lib_errors = n; tls = false; gil = true; error = x })))
        (sym h.lib_errors) (inr (refl, inl (y, refl, refl))) in
    ground (arith, q)
end_Ended env cs (some y) false x ms w v h s =
    let q : Concludes env (some y)
        (end_transaction env (some y) false (record v { tls = false; gil = true; error = x })) =
      subst
        (λ n. Concludes env (some y) (
          end_transaction env (some y) false
            (record v { lib_errors = n; tls = false; gil = true; error = x })))
        (sym h.lib_errors) (inr (refl, inr (s refl))) in
    ground (arith, q)

-- What follows the call.
abbrev finishing : Env → Option LibError → M (Unit {0}) → M Object
finishing env error free =
    own_error error >> (free >> (CallState.finish env >>= end_transaction env error))

-- `free` frees what `w1` owns and `w` does not.
abbrev Frees : M (Unit {0}) → World → World → Type 0
Frees free w w1 =
    (error : Option LibError) (c : RdCall) (ms : States) (u : World)
    → Leaves ms (calling c w1) u
    → (v : World) × ((own_error error >> free) u ≡ (ok tt, v)) × Behind (c ∷ w1.calls) ms error w v

nothing-Frees : (w : World) → w.rk ≡ true → Frees (pure tt) w w
nothing-Frees w h none c ms u l = (u, refl, ground arith)
nothing-Frees w h (some e) c ms u l =
    (record u { lib_errors = suc u.lib_errors }, refl, ground arith)

-- The list of offsets and the group's metadata are owned.
abbrev pub with_offsets : World → World
with_offsets w = record w { lists = suc w.lists; metadatas = suc w.metadatas }

offsets-Frees :
    (w : World) → w.rk ≡ true → Frees (destroy_metadata >> destroy_list) w (with_offsets w)
offsets-Frees w h none c ms u l =
    (record u { lists = w.lists; metadatas = w.metadatas }, ground arith, ground arith)
offsets-Frees w h (some e) c ms u l = (
  record u { lists = w.lists; metadatas = w.metadatas; lib_errors = suc u.lib_errors },
  ground arith,
  ground arith,
)

finishing_assoc :
    (env : Env) (error : Option LibError) (free : M (Unit {0})) (u : World)
    → finishing env error free u
      ≡ bind ((own_error error >> free) u) (λ _. CallState.finish env >>= end_transaction env error)
finishing_assoc env none free u = refl
finishing_assoc env (some e) free u = refl

crashed_lem : (b : Bool) → not b ≡ false → b ≡ true
crashed_lem true e = refl
crashed_lem false e = absurd (ground arith)

finishing-Ended :
    (env : Env) (c : RdCall) (error : Option LibError) (free : M (Unit {0})) (ms : States)
    (w w1 u : World)
    → Frees free w w1
    → Leaves ms (calling c w1) u
    → Ended env (c ∷ w1.calls) ms error w (finishing env error free u)
finishing-Ended env c error free ms w w1 u f l =
    let (v, e, b) = f error c ms u l in
    subst (Ended env (c ∷ w1.calls) ms error w) (sym (finishing_assoc env error free u)) (
      subst
        (λ r.
          Ended env (c ∷ w1.calls) ms error w
            (bind r (λ _. CallState.finish env >>= end_transaction env error)))
        (sym e) (tail v b))
  where
    tail :
        (v : World)
        → Behind (c ∷ w1.calls) ms error w v
        → Ended env
            (c ∷ w1.calls)
            ms
            error
            w
            (bind (CallState.finish env v) (end_transaction env error))
    tail v b = elim (Option-cases (env.signal v.calls)) [
      | inl q ↦
          subst (λ r. Ended env (c ∷ w1.calls) ms error w (bind r (end_transaction env error)))
            (sym (finish_quiet env v b.gil q))
            (end_Ended env (c ∷ w1.calls) error (not (ltb 0 v.crashed)) v.error ms w v b
              (λ e. inr (crashed_lem (ltb 0 v.crashed) e)))
      | inr (k, q) ↦
          subst (λ r. Ended env (c ∷ w1.calls) ms error w (bind r (end_transaction env error)))
            (sym (finish_signal env v k b.gil q))
            (end_Ended env (c ∷ w1.calls) error false (some (application k)) ms w v b
              (λ e. inl (k, q, refl)))
    ]

-- The events of the call `c`, which is made at `w`.
abbrev pub events_of : Env → RdCall → World → List Event
events_of env c w = env.events w.calls c

pub serving-Leaves :
    (env : Env) (c : RdCall) (w : World)
    → w.rk ≡ true
    → AreReported w.msgstates (events_of env c w)
    → Returns (call_serving env c (inside w)).0
      × Leaves
          (left w.msgstates (events_of env c w))
          (calling c w)
          (call_serving env c (inside w)).1
unfolding call_serving
serving-Leaves env c w h a =
    subst (λ r. Good (bind r (λ _. serve env (events_of env c w)))) (sym (called w h)) k
  where
    Good : Result (Unit {0}) × World → Type 0
    Good r = Returns r.0 × Leaves (left w.msgstates (events_of env c w)) (calling c w) r.1

    v : World
    v = calling c w

    k :
        Returns (serve env (events_of env c w) v).0
        × Leaves (left w.msgstates (events_of env c w)) v (serve env (events_of env c w) v).1
    k = serve-reports env (events_of env c w) v a (h, refl, refl, refl)

    called :
        (w : World)
        → w.rk ≡ true
        → call c (inside w) ≡ (ok tt, record (inside w) { calls = c ∷ w.calls })
    called w h = ground arith

begin-inside : (w : World) → w.gil ≡ true → CallState.begin w ≡ (ok tt, inside w)
unfolding CallState.begin
begin-inside w g = ground arith

-- A blocking call from `w1`, with what is freed behind it; `ms` and `error` are what it leaves and
-- gives.
freeing-Ended :
    (env : Env) (c : RdCall) (free : M (Unit {0})) (w w1 : World)
    → w1.rk ≡ true
    → w1.gil ≡ true
    → Frees free w w1
    → AreReported w1.msgstates (events_of env c w1)
    → Ended env
        (c ∷ w1.calls)
        (left w1.msgstates (events_of env c w1))
        (env.lib_error w1.calls c)
        w
        (blocking env c free w1)
freeing-Ended env c free w w1 h g f a =
    subst (λ r. Good (bind r (λ _. rest))) (sym (begin-inside w1 g))
      (go (call_serving env c (inside w1)) (serving-Leaves env c w1 h a))
  where
    error : Option LibError
    error = env.lib_error w1.calls c

    Good : Result Object × World → Type 0
    Good r = Ended env (c ∷ w1.calls) (left w1.msgstates (events_of env c w1)) error w r

    rest : M Object
    rest u = bind (call_serving env c u) (λ _. finishing env (env.lib_error u.calls c) free)

    go :
        (r : Result (Unit {0}) × World)
        → Returns r.0 × Leaves (left w1.msgstates (events_of env c w1)) (calling c w1) r.1
        → Good (bind r (λ _. finishing env error free))
    go (ok a, u) k =
        finishing-Ended env c error free (left w1.msgstates (events_of env c w1)) w w1 u f k.1
    go (null, u) k = absurd k.0
    go (fault, u) k = absurd k.0

pub blocking-Ended :
    (env : Env) (c : RdCall) (w : World)
    → w.rk ≡ true
    → w.gil ≡ true
    → AreReported w.msgstates (events_of env c w)
    → Ended env
        (c ∷ w.calls)
        (left w.msgstates (events_of env c w))
        (env.lib_error w.calls c)
        w
        (blocking env c (pure tt) w)
blocking-Ended env c w h g a = freeing-Ended env c (pure tt) w w h g (nothing-Frees w h) a

pub offsets-Ended :
    (env : Env) (c : RdCall) (w : World)
    → w.rk ≡ true
    → w.gil ≡ true
    → AreReported w.msgstates (events_of env c w)
    → Ended env
        (c ∷ w.calls)
        (left w.msgstates (events_of env c w))
        (env.lib_error w.calls c)
        w
        (blocking env c (destroy_metadata >> destroy_list) (with_offsets w))
offsets-Ended env c w h g a =
    freeing-Ended env c (destroy_metadata >> destroy_list) w (with_offsets w) h g
      (offsets-Frees w h) a

-- commit_transaction() on an open Producer, whose librdkafka serves reports of live msgstates
-- meanwhile: it returns None, and then librdkafka gave no error object; or NULL, and then the exception
-- set is the one of the error object that librdkafka gave, or a signal's, or a callback ended the
-- call. An error object is freed on every branch, the lock is held, and exactly the reported
-- msgstates are freed.
pub commit_transaction-Ended :
    (env : Env) (timeout : Option Seconds) (w : World)
    → let c : RdCall = RdCall.commit_transaction (timeout_ms (or_else timeout default_seconds)) in
      w.rk ≡ true
      → w.gil ≡ true
      → AreReported w.msgstates (events_of env c w)
      → Ended env
          (c ∷ w.calls)
          (left w.msgstates (events_of env c w))
          (env.lib_error w.calls c)
          w
          (commit_transaction env (parsed timeout) w)
unfolding commit_transaction
commit_transaction-Ended env timeout w h g a =
    blocking-Ended env (RdCall.commit_transaction (timeout_ms (or_else timeout default_seconds))) w
      h g a

-- ===== src/Producer/Runs/Messages.antt =====
-- Producer_produce.
use confluent_kafka_python.Base.{
  ℕ, suc, ◌≡◌, refl, sym, ap, subst, ◌∙◌, inl, inr, Bool, true, false, Option, if◌then◌else◌, none,
  some, List, ◌∷◌, arith,
}
use confluent_kafka_python.Base.Int.{ℤ, pos, eqb_ℤ}
use confluent_kafka_python.Object.{Object, none_object}
use confluent_kafka_python.Headers.{Header, headers_to_c}
use confluent_kafka_python.Headers.Laws.{headers_to_c_cases}
use confluent_kafka_python.World.{
  Encodes, World, Env, M, Result, ok, null, parsed, pure, raise, ◌>>◌,
}
use confluent_kafka_python.World.Laws.{marks}
use confluent_kafka_python.Callbacks.{msgstate_new, msgstate_destroy, find, remove}
use confluent_kafka_python.Admin.Accounts.{IsOpen}
use confluent_kafka_python.Producer.Produce.{
  ProduceArgs, produce, send, headers_arg, alias, delivery_callback, end_produce, hand_over,
  produce_exception,
}
use confluent_kafka_python.Producer.Outcome.{the_call}
use confluent_kafka_python.Producer.Reports.Freed.{bind}
use confluent_kafka_python.Producer.Flight.{effect, IsTracked, ids, taken, in_flight}
use confluent_kafka_python.Producer.Queue.{queue_of, takes, refuses, Steps, idle, follow}
use confluent_kafka_python.Producer.Runs.{Runs, nothing-Runs}

-- A produce() without headers, or whose headers librdkafka takes over.
abbrev pub HandsOver : Env → ProduceArgs → World → Type 0
HandsOver env a w =
    (o : Object) (hs : List Header)
    → a.headers ≡ some o
    → (headers_to_c env o w).0 ≡ ok hs
    → env.code w.calls (the_call a w (some hs)) ≡ pos 0

took :
    (cb : Option Object) (w v : World)
    → v.next_msgstate ≡ suc w.next_msgstate
    → v.msgstates ≡ (w.next_msgstate, cb) ∷ w.msgstates
    → Steps (queue_of w) (queue_of v)
took cb w v n m =
    subst (λ k. Steps (queue_of w) (record { next = k; waiting = v.msgstates })) (sym n)
      (subst (λ ms. Steps (queue_of w) (record { next = suc w.next_msgstate; waiting = ms }))
        (sym m) (follow idle (takes cb)))

refused :
    (w v : World)
    → v.next_msgstate ≡ suc w.next_msgstate
    → v.msgstates ≡ w.msgstates
    → Steps (queue_of w) (queue_of v)
refused w v n m =
    subst (λ k. Steps (queue_of w) (record { next = k; waiting = v.msgstates })) (sym n)
      (subst (λ ms. Steps (queue_of w) (record { next = suc w.next_msgstate; waiting = ms }))
        (sym m) (follow idle refuses))

-- Behind rd_kafka_producev.
abbrev produced : ProduceArgs → Option (List Header) → World → World
produced a hs u = record u {
  msgstates =
      (u.next_msgstate, delivery_callback (alias a.callback a.on_delivery) u.default_dr_cb)
      ∷ u.msgstates;
  next_msgstate = suc u.next_msgstate;
  calls = the_call a u hs ∷ u.calls;
}

send-end_produce :
    (env : Env) (a : ProduceArgs) (hs : Option (List Header)) (u : World)
    → u.rk ≡ true
    → send env a hs u
      ≡ end_produce u.next_msgstate hs env (env.code u.calls (the_call a u hs)) (produced a hs u)
unfolding msgstate_new
send-end_produce env a hs u h = ground arith

by_code :
    (b : Bool) (env : Env) (n : ℕ) (hs : Option (List Header)) (err : ℤ) (v : World)
    → Result Object × World
by_code b env n hs err v =
    let m : M Object = elim b [
      | true ↦ hand_over hs >> pure none_object
      | false ↦ msgstate_destroy n >> raise (produce_exception env err)
    ] in
    m v

abbrev returned : Env → ProduceArgs → Option (List Header) → ℤ → World → World
returned env a hs err u = record (produced a hs u) {
  msgstates = u.msgstates;
  error = some (produce_exception env err);
}

refused_lem :
    (env : Env) (a : ProduceArgs) (hs : Option (List Header)) (err : ℤ) (u : World)
    → by_code false env u.next_msgstate hs err (produced a hs u) ≡ (null, returned env a hs err u)
unfolding by_code msgstate_destroy find remove
refused_lem env a hs err u = ground arith

-- The number that the call carries is in flight if librdkafka took it.
produced-IsTracked :
    (env : Env) (a : ProduceArgs) (hs : Option (List Header)) (b : Bool) (w v : World)
    → eqb_ℤ (env.code w.calls (the_call a w hs)) (pos 0) ≡ b
    → ids v.msgstates ≡ (if b then w.next_msgstate ∷ ids w.msgstates else ids w.msgstates)
    → marks v.calls ≡ marks (the_call a w hs ∷ w.calls)
    → IsTracked env w
    → IsTracked env v
unfolding effect taken
produced-IsTracked env a hs b w v e m k h =
    m
    ∙ ap (λ ns. if b then w.next_msgstate ∷ ns else ns) h
    ∙ sym (ap (λ b. if b then w.next_msgstate ∷ in_flight env w.calls else in_flight env w.calls) e)
    ∙ ap (taken env) (sym k)

plain-Runs :
    (b : Bool) (env : Env) (a : ProduceArgs) (err : ℤ) (w : World)
    → IsOpen w
    → eqb_ℤ (env.code w.calls (the_call a w none)) (pos 0) ≡ b
    → Runs env w (by_code b env w.next_msgstate none err (produced a none w))
unfolding by_code ids
plain-Runs true env a err w h e = record {
  survives = λ x. cc;
  releases = ground arith;
  steps = took _ w (produced a none w) refl refl;
  tracks = produced-IsTracked env a none true w (produced a none w) e refl refl;
}
plain-Runs false env a err w h e = subst (Runs env w) (sym (refused_lem env a none err w)) (record {
  survives = λ x. cc;
  releases = ground arith;
  steps = refused w (returned env a none err w) refl refl;
  tracks = produced-IsTracked env a none false w (returned env a none err w) e refl refl;
})

-- Without headers, and with headers that librdkafka takes over.
send_plain : (env : Env) (a : ProduceArgs) (w : World) → IsOpen w → Runs env w (send env a none w)
unfolding by_code
send_plain env a w h = subst (Runs env w) (sym (send-end_produce env a none w h.rk)) (
    plain-Runs (eqb_ℤ (env.code w.calls (the_call a w none)) (pos 0)) env a
      (env.code w.calls (the_call a w none)) w h refl)

send_headers :
    (env : Env) (a : ProduceArgs) (hs : List Header) (w : World)
    → IsOpen w
    → env.code w.calls (the_call a w (some hs)) ≡ pos 0
    → Runs env w (send env a (some hs) (record w { headers = suc w.headers }))
unfolding by_code ids
send_headers env a hs w h e = subst (Runs env w) (sym (send-end_produce env a (some hs) u h.rk)) (
    subst
      (λ b. Runs env w (
        by_code b env w.next_msgstate (some hs) (env.code w.calls (the_call a w (some hs)))
          (produced a (some hs) u)))
      (sym (ap (λ x. eqb_ℤ x (pos 0)) e))
      (record {
        survives = λ x. cc;
        releases = ground arith;
        steps = took _ w (record (produced a (some hs) u) { headers = w.headers }) refl refl;
        tracks =
            produced-IsTracked env a (some hs) true w
              (record (produced a (some hs) u) { headers = w.headers })
              (ap (λ x. eqb_ℤ x (pos 0)) e) refl refl;
      }))
  where
    u : World
    u = record w { headers = suc w.headers }

pub produce-Runs :
    (env : Env) (a : ProduceArgs) (w : World)
    → Encodes env
    → IsOpen w
    → HandsOver env a w
    → Runs env w (produce env (parsed a) w)
unfolding produce
produce-Runs env a w n h t = go a.headers refl
  where
    from : Option Object → Result Object × World
    from o = bind (headers_arg env o w) (send env a)

    converted :
        (o : Object)
        → a.headers ≡ some o
        → (r : Result (List Header) × World) → r ≡ headers_to_c env o w
        → Runs env w (bind (bind r (λ hs. pure (some hs))) (send env a))
    converted o e r q = elim (headers_to_c_cases env o w) [
      | inl (hs, c) ↦
          subst (λ r. Runs env w (bind (bind r (λ hs. pure (some hs))) (send env a))) (sym (q ∙ c))
            (send_headers env a hs w h
              (t o hs e (ap (λ (r : Result (List Header) × World). r.0) c)))
      | inr (inl (x, c)) ↦
          subst (λ r. Runs env w (bind (bind r (λ hs. pure (some hs))) (send env a))) (sym (q ∙ c))
            (nothing-Runs env null (some x) w h (λ x. cc))
      | inr (inr ((s, u), c)) ↦ let (b, e) = n s in absurd (ground arith)
    ]

    go : (o : Option Object) → a.headers ≡ o → Runs env w (from o)
    go none e = send_plain env a w h
    go (some none_object) e = send_plain env a w h
    go (some o) e = converted o e (headers_to_c env o w) refl

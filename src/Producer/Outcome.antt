-- ===== src/Producer/Outcome.antt =====
-- What produce() leaves behind.
use confluent_kafka_python.Base.{
  suc, ◌≡◌, ◌≢◌, refl, sym, ap, subst, ◌⊎◌, inl, inr, true, Option, some, List, ◌∷◌, arith,
}
use confluent_kafka_python.Base.Int.{ℤ, pos}
use confluent_kafka_python.Object.{Object, none_object, Exception}
use confluent_kafka_python.Headers.{Header, headers_to_c}
use confluent_kafka_python.Headers.Laws.{IsUncoded, headers_to_c_cases}
use confluent_kafka_python.World.{World, Env, RdCall, Result, ok, null, fault, parsed}
use confluent_kafka_python.Callbacks.{msgstate_new, msgstate_destroy, find, remove}
use confluent_kafka_python.Producer.Produce.{
  ProduceArgs, produce, send, alias, delivery_callback, produce_exception, headers_arg,
}

-- The call of librdkafka that produce() makes.
abbrev pub the_call : ProduceArgs → World → Option (List Header) → RdCall
the_call a w hs = RdCall.producev a.topic a.partition a.value a.key a.timestamp w.next_msgstate hs

-- Behind rd_kafka_producev: on success its msgstate lives until the delivery report and librdkafka
-- owns the headers; on an error the msgstate is freed, and headers stay behind.
abbrev Sent : ℤ → Env → ProduceArgs → World → Result Object × World → Type 0
Sent err env a w r =
    ((err ≡ pos 0)
      × (r.0 ≡ ok none_object)
      × (r.1.msgstates
          ≡ (w.next_msgstate, delivery_callback (alias a.callback a.on_delivery) w.default_dr_cb)
            ∷ w.msgstates)
      × (r.1.headers ≡ w.headers))
    ⊎ ((err ≢ pos 0)
        × (r.0 ≡ null)
        × (r.1.error ≡ some (produce_exception env err))
        × (r.1.msgstates ≡ w.msgstates)
        × (r.1.headers ≡ w.headers))

headers_arg-some :
    (env : Env) (o : Object) (hs : List Header) (w w1 : World)
    → o ≢ none_object
    → headers_to_c env o w ≡ (ok hs, w1)
    → headers_arg env (some o) w ≡ (ok (some hs), w1)
headers_arg-some env none_object hs w w1 n c = absurd (n refl)
headers_arg-some env _ hs w w1 n c = ap wrap c
  where
    wrap : Result (List Header) × World → Result (Option (List Header)) × World
    wrap r = elim r.0 [ ok a ↦ (ok (some a), r.1) | null ↦ (null, r.1) | fault ↦ (fault, r.1) ]

Leaks : World → Result Object × World → Type 0
Leaks w r = (r.0 ≡ null) × (r.1.msgstates ≡ w.msgstates) × (r.1.headers ≡ suc w.headers)

send_leak :
    (env : Env) (a : ProduceArgs) (hs : List Header) (w : World)
    → w.rk ≡ true
    → env.code w.calls (the_call a w (some hs)) ≢ pos 0
    → Leaks w (send env a (some hs) (record w { headers = suc w.headers }))
unfolding Leaks msgstate_new msgstate_destroy find remove
send_leak env a hs w h f = ground arith

-- Where librdkafka refuses a message with headers, given as a list or dict, produce() raises and no
-- msgstate is left, but the headers object that it made is not destroyed.
pub produce_leak :
    (env : Env) (a : ProduceArgs) (o : Object) (hs : List Header) (w w1 : World)
    → w.rk ≡ true
    → a.headers ≡ some o
    → o ≢ none_object
    → headers_to_c env o w ≡ (ok hs, w1)
    → env.code w.calls (the_call a w (some hs)) ≢ pos 0
    → let (r, w') = produce env (parsed a) w in
      (r ≡ null) × (w'.msgstates ≡ w.msgstates) × (w'.headers ≡ suc w.headers)
unfolding produce Leaks
produce_leak env a o hs w w1 h e n c f = go (headers_to_c_cases env o w)
  where
    run : Result (Option (List Header)) × World → Result Object × World
    run r = elim r.0 [ ok a1 ↦ send env a a1 r.1 | null ↦ (null, r.1) | fault ↦ (fault, r.1) ]

    sent :
        (hs1 : List Header)
        → headers_to_c env o w ≡ (ok hs1, record w { headers = suc w.headers })
        → hs1 ≡ hs
        → Leaks w (run (headers_arg env a.headers w))
    sent hs1 c1 q =
        subst (λ m. Leaks w (run (headers_arg env m w))) (sym e)
          (subst (λ r. Leaks w (run r))
            (sym (headers_arg-some env o hs1 w (record w { headers = suc w.headers }) n c1))
            (send_leak env a hs1 w h
              (subst (λ x. env.code w.calls (the_call a w (some x)) ≢ pos 0) (sym q) f)))

    go :
        (((hs1 : List Header) × (headers_to_c env o w
              ≡ (ok hs1, record w { headers = suc w.headers })))
          ⊎ ((x : Exception) × (headers_to_c env o w ≡ (null, record w { error = some x })))
          ⊎ (IsUncoded env
              × (headers_to_c env o w ≡ (fault, record w { headers = suc w.headers }))))
        → Leaks w (run (headers_arg env a.headers w))
    go (inl (hs1, c1)) = sent hs1 c1 (ground arith)
    go (inr (inl (x, c1))) = absurd (ground arith)
    go (inr (inr (x, c1))) = absurd (ground arith)

-- ===== src/Consumer/Balance/Fetches.antt =====
-- poll() and consume(): the messages that librdkafka hands over are all freed.
use confluent_kafka_python.Base.{
  ℕ, zero, suc, ◌+◌, ◌≡◌, refl, sym, subst, Bool, true, false, Option, none, some, List, ◌∷◌, map,
  length, arith,
}
use confluent_kafka_python.Message.{Message}
use confluent_kafka_python.World.{
  World, Env, RdCall, CMessage, M, ok, Parsed, parsed, rejected, gets, own_messages, call_queue,
  destroy_message, pure, return_null, ◌>>=◌, ◌>>◌,
}
use confluent_kafka_python.CallState
use confluent_kafka_python.Callbacks.{call_serving, serve}
use confluent_kafka_python.Format.{Seconds, timeout_ms, default_seconds}
use confluent_kafka_python.Consumer.Assignment.{require_open}
use confluent_kafka_python.Consumer.Offsets.{or_else}
use confluent_kafka_python.Consumer.Fetch.{
  own_one, end_poll, poll, count, to_message, destroy_messages, end_consume, too_many, consume,
}
use confluent_kafka_python.Consumer.Balance.{IsSafe, Behaves}
use confluent_kafka_python.Consumer.Balance.Rules.{Ends, IsSafe->>=, require_open-IsSafe, bind}
use confluent_kafka_python.Consumer.Balance.Blocking.{
  Inside, Outside, Post, Post->>=, begin-Inside, serve-Inside, call_serving-Inside, finish-Outside,
}

abbrev pub held : Option CMessage → ℕ
held none = 0
held (some _) = 1

own_one-Inside :
    (rkm : Option CMessage) (w u : World)
    → Inside true 0 w u
    → Post (λ _ v. Inside true (held rkm) w v) (own_one rkm u)
own_one-Inside none w u h = ground arith
own_one-Inside (some rkm) w u h = ground arith

end_poll-Ends :
    (env : Env) (rkm : Option CMessage) (fine : Bool) (w u : World)
    → Outside (held rkm) w u
    → Ends w (end_poll env rkm fine u)
end_poll-Ends env none true w u h = ground arith
end_poll-Ends env none false w u h = ground arith
end_poll-Ends env (some rkm) true w u h = ground arith
end_poll-Ends env (some rkm) false w u h = ground arith

module _ (env : Env) (b : Behaves env) where
  -- poll() behind CallState_begin.
  abbrev polled : RdCall → M (Option Message)
  polled c = gets (λ w. env.message w.calls c) >>= λ rkm.
      call_serving env c >> (own_one rkm >> (CallState.finish env >>= end_poll env rkm))

  polled-Ends : (c : RdCall) (w u : World) → Inside true 0 w u → Ends w (polled c u)
  polled-Ends c w u h =
      let rkm = env.message u.calls c in
      Post->>= (λ _ v. Inside true 0 w v) w (call_serving env c) _ u
        (call_serving-Inside env c true w u b h)
        λ _ v i.
          Post->>= (λ _ v. Inside true (held rkm) w v) w (own_one rkm) _ v
            (own_one-Inside rkm w v i)
            λ _ x j.
              Post->>= (λ _ v. Outside (held rkm) w v) w (CallState.finish env) (end_poll env rkm) x
                (finish-Outside env (held rkm) w x j) (λ fine y o. end_poll-Ends env rkm fine w y o)

  pub poll-IsSafe : (args : Parsed (Option Seconds)) → IsSafe (poll env args)
  unfolding poll
  poll-IsSafe (rejected n) = λ w h. ground arith
  poll-IsSafe (parsed t) =
      let c = RdCall.consumer_poll (timeout_ms (or_else t default_seconds)) in
      IsSafe->>= require_open (λ _. CallState.begin >> polled c) require_open-IsSafe
        λ _ w h.
          Post->>= (λ _ u. Inside true 0 w u) w CallState.begin (λ _. polled c) w (begin-Inside w h)
            (λ _ u i. polled-Ends c w u i)

destroy_message_lem :
    (u : World) (k : ℕ)
    → u.messages ≡ suc k
    → destroy_message u ≡ (ok tt, record u { messages = k })
destroy_message_lem u k e = ground arith

destroy_messages_lem :
    (n m : ℕ) (u : World)
    → u.messages ≡ m + n
    → destroy_messages n u ≡ (ok tt, record u { messages = m })
unfolding destroy_messages
destroy_messages_lem zero m u e = ground arith
destroy_messages_lem (suc n) m u e =
    subst (λ r. bind r (λ _. destroy_messages n) ≡ (ok tt, record u { messages = m }))
      (sym (destroy_message_lem u (m + n) (omega arith)))
      (destroy_messages_lem n m (record u { messages = m + n }) refl)

own-Inside :
    (n : ℕ) (w u : World) → Inside true 0 w u → Post (λ _ v. Inside true n w v) (own_messages n u)
own-Inside n w u h = ground arith

call_queue-Inside :
    (c : RdCall) (w u : World)
    → Inside true 0 w u
    → Post (λ _ v. Inside true 0 w v) (call_queue c u)
call_queue-Inside c w u h =
    subst (Post (λ _ v. Inside true 0 w v)) (sym (called u h.rkqu)) (ground arith)
  where
    called :
        (u : World) → u.rkqu ≡ true → call_queue c u ≡ (ok tt, record u { calls = c ∷ u.calls })
    called u e = ground arith

end_consume-Ends :
    (env : Env) (rkms : Option (List CMessage)) (fine : Bool) (w u : World)
    → Outside (count rkms) w u
    → Ends w (end_consume env rkms fine u)
end_consume-Ends env none true w u h = ground arith
end_consume-Ends env (some rkms) true w u h =
    subst (λ r. Ends {A = List Message} w (bind r (λ _. pure (map (to_message env u) rkms))))
      (sym (destroy_messages_lem (length rkms) w.messages u h.messages)) (ground arith)
end_consume-Ends env rkms false w u h =
    subst (λ r. Ends {A = List Message} w (bind r (λ _. return_null)))
      (sym (destroy_messages_lem (count rkms) w.messages u h.messages)) (ground arith)

module _ (env : Env) (b : Behaves env) where
  -- consume() behind CallState_begin.
  abbrev consumed : RdCall → M (List Message)
  consumed c = gets (λ w. env.batch w.calls c) >>= λ rkms.
      gets (λ w. env.events w.calls c) >>= λ events.
      call_queue c
      >> (serve env events
          >> (own_messages (count rkms) >> (CallState.finish env >>= end_consume env rkms)))

  consumed-Ends : (c : RdCall) (w u : World) → Inside true 0 w u → Ends w (consumed c u)
  consumed-Ends c w u h =
      let rkms = env.batch u.calls c in
      let events = env.events u.calls c in
      Post->>= (λ _ v. Inside true 0 w v) w (call_queue c) _ u (call_queue-Inside c w u h)
        λ _ v i.
          Post->>= (λ _ v. Inside true 0 w v) w (serve env events) _ v
            (serve-Inside env events true w v (b.servable u.calls c) i)
            λ _ x j.
              Post->>= (λ _ v. Inside true (count rkms) w v) w (own_messages (count rkms)) _ x
                (own-Inside (count rkms) w x j)
                λ _ y k.
                  Post->>= (λ _ v. Outside (count rkms) w v) w (CallState.finish env)
                    (end_consume env rkms) y (finish-Outside env (count rkms) w y k)
                    (λ fine z o. end_consume-Ends env rkms fine w z o)

  too_many-IsSafe : (n : ℕ) → IsSafe (too_many n)
  too_many-IsSafe n w h = ground arith

  pub consume-IsSafe : (args : Parsed (Option ℕ × Option Seconds)) → IsSafe (consume env args)
  unfolding consume
  consume-IsSafe (rejected n) = λ w h. ground arith
  consume-IsSafe (parsed (n, t)) =
      let c = RdCall.consume_batch_queue (timeout_ms (or_else t default_seconds)) (or_else n 1) in
      IsSafe->>= require_open (λ _. too_many (or_else n 1) >> (CallState.begin >> consumed c))
        require_open-IsSafe
        λ _.
          IsSafe->>= (too_many (or_else n 1)) (λ _. CallState.begin >> consumed c)
            (too_many-IsSafe (or_else n 1))
            λ _ w h.
              Post->>= (λ _ u. Inside true 0 w u) w CallState.begin (λ _. consumed c) w
                (begin-Inside w h) (λ _ u i. consumed-Ends c w u i)

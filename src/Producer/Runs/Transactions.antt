-- ===== src/Producer/Runs/Transactions.antt =====
-- The transactions of a Producer.
use confluent_kafka_python.Base.{
  refl, suc, sym, subst, inl, inr, true, Option, none, some, List, [], ◌∷◌, arith,
}
use confluent_kafka_python.Base.Text.{Text}
use confluent_kafka_python.Object.{Object, bytes}
use confluent_kafka_python.KafkaError.{LibError}
use confluent_kafka_python.Format.{Seconds, default_seconds, timeout_ms}
use confluent_kafka_python.World.{
  World, Env, RdCall, CPart, M, Result, ok, null, fault, parsed, pure, return_null, own_metadata,
  own_lib_error, destroy_metadata, destroy_list, ◌>>=◌, ◌>>◌,
}
use confluent_kafka_python.Consumer.Offsets.{or_else}
use confluent_kafka_python.Consumer.Balance.{py_to_c_parts_cases}
use confluent_kafka_python.Admin.Accounts.{IsOpen, call_lem}
use confluent_kafka_python.Handle.{raise_lib_error}
use confluent_kafka_python.Producer.Transaction.{
  init_transactions, begin_transaction, send_offsets_to_transaction, commit_transaction,
  abort_transaction, blocking, own_error, end_transaction, cgmd_or_free, py_to_c_cgmd,
}
use confluent_kafka_python.Producer.Reports.{AreReported}
use confluent_kafka_python.Producer.Reports.Freed.{bind}
use confluent_kafka_python.Producer.Ends.{
  Ended, Concludes, events_of, blocking-Ended, offsets-Ended,
}
use confluent_kafka_python.Producer.Method.{offsets_call, offsets_events}
use confluent_kafka_python.Producer.Flight.{
  init_transactions-IsServing, commit_transaction-IsServing, abort_transaction-IsServing,
  send_offsets-IsServing, begin_transaction-IsNeutral, IsServing,
}
use confluent_kafka_python.Producer.Runs.{
  Runs, same-Steps, neutral-IsTracked, nothing-Runs, Ended-Runs, serving-Ended-Runs,
}

blocking-Runs :
    (env : Env) (c : RdCall) (w : World)
    → IsOpen w
    → IsServing env c
    → AreReported w.msgstates (events_of env c w)
    → Runs env w (blocking env c (pure tt) w)
blocking-Runs env c w h i a =
    serving-Ended-Runs env c (env.lib_error w.calls c) w (blocking env c (pure tt) w) i a
      (blocking-Ended env c w h.rk h.gil a)

pub init_transactions-Runs :
    (env : Env) (t : Option Seconds) (w : World)
    → IsOpen w
    → AreReported w.msgstates
        (events_of env (RdCall.init_transactions (timeout_ms (or_else t default_seconds))) w)
    → Runs env w (init_transactions env (parsed t) w)
unfolding init_transactions
init_transactions-Runs env t w h a =
    blocking-Runs env _ w h
      (init_transactions-IsServing env (timeout_ms (or_else t default_seconds))) a

pub commit_transaction-Runs :
    (env : Env) (t : Option Seconds) (w : World)
    → IsOpen w
    → AreReported w.msgstates
        (events_of env (RdCall.commit_transaction (timeout_ms (or_else t default_seconds))) w)
    → Runs env w (commit_transaction env (parsed t) w)
unfolding commit_transaction
commit_transaction-Runs env t w h a =
    blocking-Runs env _ w h
      (commit_transaction-IsServing env (timeout_ms (or_else t default_seconds))) a

pub abort_transaction-Runs :
    (env : Env) (t : Option Seconds) (w : World)
    → IsOpen w
    → AreReported w.msgstates
        (events_of env (RdCall.abort_transaction (timeout_ms (or_else t default_seconds))) w)
    → Runs env w (abort_transaction env (parsed t) w)
unfolding abort_transaction
abort_transaction-Runs env t w h a =
    blocking-Runs env _ w h
      (abort_transaction-IsServing env (timeout_ms (or_else t default_seconds))) a

pub begin_transaction-Runs :
    (env : Env) (w : World) → IsOpen w → Runs env w (begin_transaction env w)
unfolding begin_transaction
begin_transaction-Runs env w h =
    subst (λ r. Runs env w (bind r (λ _. own_error error >> end_transaction env error true)))
      (sym (call_lem RdCall.begin_transaction w h.rk)) (by_end _ (ended error))
  where
    error : Option LibError
    error = env.lib_error w.calls RdCall.begin_transaction

    returned : Option LibError → Result Object × World
    returned o =
        (own_error o >> end_transaction env o true)
          (record w { calls = RdCall.begin_transaction ∷ w.calls })

    ended :
        (o : Option LibError)
        → Ended env (RdCall.begin_transaction ∷ w.calls) w.msgstates o w (
            (own_error o >> end_transaction env o true)
              (record w { calls = RdCall.begin_transaction ∷ w.calls }))
    ended none = let q : Concludes env none (returned none) = inl (refl, refl) in ground (arith, q)
    ended (some x) =
        let q : Concludes env (some x) (returned (some x)) = inr (refl, inl (x, refl, refl)) in
        ground (arith, q)

    by_end :
        (r : Result Object × World)
        → Ended env (RdCall.begin_transaction ∷ w.calls) w.msgstates error w r
        → Runs env w r
    by_end r e =
        Ended-Runs env (RdCall.begin_transaction ∷ w.calls) w.msgstates error w r
          (same-Steps w r.1 e.next_msgstate e.msgstates)
          (neutral-IsTracked env RdCall.begin_transaction w r.1 (begin_transaction-IsNeutral env)
            e.msgstates e.marked)
          e

-- The arguments of send_offsets_to_transaction(), and then its call.
abbrev send_call : List CPart → Text → Option Seconds → RdCall
send_call parts b t = RdCall.send_offsets parts b (timeout_ms (or_else t default_seconds))

cgmd_Runs :
    (env : Env) (parts : List CPart) (metadata : Object) (t : Option Seconds) (w : World)
    → IsOpen w
    → AreReported w.msgstates (offsets_call env parts metadata t w)
    → Runs env w (
        bind
          (cgmd_or_free env metadata (record w { lists = suc w.lists }))
          (λ b. blocking env (send_call parts b t) (destroy_metadata >> destroy_list)))
unfolding py_to_c_cgmd
cgmd_Runs env parts (bytes b) t w h a = go (env.read_metadata b) a
  where
    sends : Result Text × World → Result Object × World
    sends r = bind r (λ b. blocking env (send_call parts b t) (destroy_metadata >> destroy_list))

    -- By what rd_kafka_consumer_group_metadata_read returns.
    read : Option LibError → M Text
    read o = elim o [
      | none ↦ own_metadata >> pure b
      | some e ↦ own_lib_error >> (raise_lib_error env e >> return_null)
    ]

    or_free : Result Text × World → Result Text × World
    or_free r = elim r.0 [
      | ok x ↦ (ok x, r.1)
      | null ↦ (destroy_list >> return_null) r.1
      | fault ↦ (fault, r.1)
    ]

    go :
        (o : Option LibError)
        → AreReported w.msgstates
            (elim o [ none ↦ events_of env (send_call parts b t) w | some e ↦ [] ])
        → Runs env w (sends (or_free (read o (record w { lists = suc w.lists }))))
    go none a =
        serving-Ended-Runs env (send_call parts b t) (env.lib_error w.calls (send_call parts b t)) w
          _ (send_offsets-IsServing env parts b (timeout_ms (or_else t default_seconds))) a
          (offsets-Ended env (send_call parts b t) w h.rk h.gil a)
    go (some e) a = nothing-Runs env null _ w h (λ x. cc)
cgmd_Runs env parts _ t w h a = nothing-Runs env null _ w h (λ x. cc)

pub send_offsets_to_transaction-Runs :
    (env : Env) (offsets metadata : Object) (t : Option Seconds) (w : World)
    → IsOpen w
    → AreReported w.msgstates (offsets_events env (parsed (offsets, metadata, t)) w)
    → Runs env w (send_offsets_to_transaction env (parsed (offsets, metadata, t)) w)
unfolding send_offsets_to_transaction
send_offsets_to_transaction-Runs env offsets metadata t w h a =
    elim (py_to_c_parts_cases offsets w) [
      | inl (parts, e) ↦
          subst (λ r. Runs env w (bind r rest)) (sym e)
            (cgmd_Runs env parts metadata t w h (
              subst
                (λ (r : Result (List CPart) × World). AreReported w.msgstates (elim r.0 [
                  | ok parts ↦ offsets_call env parts metadata t w
                  | null ↦ []
                  | fault ↦ []
                ]))
                e a))
      | inr (x, e) ↦
          subst (λ r. Runs env w (bind r rest)) (sym e)
            (nothing-Runs env null (some x) w h (λ x. cc))
    ]
  where
    rest : List CPart → M Object
    rest parts = cgmd_or_free env metadata >>= λ b.
        blocking env (send_call parts b t) (destroy_metadata >> destroy_list)

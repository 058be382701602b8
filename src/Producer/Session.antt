-- ===== src/Producer/Session.antt =====
-- A Producer in use: its methods one after the other.
use confluent_kafka_python.Base.{
  ℕ, ◌≡◌, refl, sym, subst, ap, ◌⊎◌, inl, inr, arith, true, false, Option, none, some, List, [],
  ◌∷◌,
}
use confluent_kafka_python.Base.Text.{Text, codes}
use confluent_kafka_python.Object.{Object, bytes, application}
use confluent_kafka_python.Format.{Seconds, default_seconds, timeout_ms}
use confluent_kafka_python.World.{
  Encodes, Result, RdCall, CPart, World, Env, ok, null, fault, parsed, rejected,
}
use confluent_kafka_python.Admin.Accounts.{IsOpen}
use confluent_kafka_python.Metadata.{list_topics}
use confluent_kafka_python.Metadata.Listed.{IsMetadata, Lists-survives, list_topics-Lists}
use confluent_kafka_python.Producer.Produce
use confluent_kafka_python.Producer.Serve
use confluent_kafka_python.Producer.Transaction
use confluent_kafka_python.Producer.Method.{
  Method, call_method, run_methods, queue_len, offsets_call, offsets_events,
}
use confluent_kafka_python.Producer.Reports.{AreReported}
use confluent_kafka_python.Producer.Ends.{events_of}
use confluent_kafka_python.Producer.Flight.{
  IsTracked, IsNeutral, AreDue, in_flight, ids-AreReported, metadata-IsNeutral,
}
use confluent_kafka_python.Producer.Produce.{ProduceArgs}
use confluent_kafka_python.TopicPartition.Lists.{py_to_c_parts}
use confluent_kafka_python.Headers.{Header}
use confluent_kafka_python.KafkaError.{LibError}
use confluent_kafka_python.World.Laws.{marks}
use confluent_kafka_python.Consumer.Offsets.{or_else}
use confluent_kafka_python.Base.Int.{ℤ, pos}
use confluent_kafka_python.Producer.Queue.{
  queue_of, IsNumbered, Steps, idle, Steps-trans, Steps-IsNumbered,
}
use confluent_kafka_python.Producer.Runs.{
  Releases, Releases-trans, Runs, same-Steps, same-IsTracked, neutral-IsTracked, nothing-Runs,
  forget-Runs,
}
use confluent_kafka_python.Producer.Runs.Serving
use confluent_kafka_python.Producer.Runs.Transactions
use confluent_kafka_python.Producer.Runs.Messages
use confluent_kafka_python.Producer.Runs.Messages.{HandsOver}

-- librdkafka takes every message that has headers.
abbrev pub TakesHeaders : Env → Type 0
TakesHeaders env =
    (cs : List RdCall) (topic : Text) (partition : ℤ) (value key : Option Text) (timestamp : ℤ)
    (n : ℕ) (hs : List Header)
    → env.code cs (RdCall.producev topic partition value key timestamp n (some hs)) ≡ pos 0

-- No headers are left behind by a message that librdkafka refuses.
abbrev pub Delivers : Env → Method → Type 0
Delivers env (Method.produce (parsed a)) = (a.headers ≡ none) ⊎ TakesHeaders env
Delivers env _ = Unit

abbrev pub AllDeliver : Env → List Method → Type 0
AllDeliver env [] = Unit
AllDeliver env (m ∷ ms) = Delivers env m × AllDeliver env ms

-- What librdkafka promises: each call serves reports of messages that are in flight, one of each,
-- and log levels of syslog's. And confluent_kafka.admin, which list_topics() uses, can be imported.
pub record Promises (env : Env) : Type 0 where
  pub importable : env.imports (codes "confluent_kafka.admin") ≡ true
  pub reported : (cs : List RdCall) (c : RdCall) → AreDue (in_flight env cs) (env.events cs c)

reported_lem :
    (env : Env) (w : World) (c : RdCall)
    → Promises env
    → IsTracked env w
    → AreReported w.msgstates (events_of env c w)
reported_lem env w c p t =
    ids-AreReported w.msgstates (events_of env c w)
      (subst (λ ns. AreDue ns (events_of env c w)) (sym t) (p.reported w.calls c))

hands_over :
    (env : Env) (a : ProduceArgs) (w : World)
    → Delivers env (Method.produce (parsed a))
    → HandsOver env a w
hands_over env a w (inl e) = λ o hs s c. absurd (ground (arith, e, s))
hands_over env a w (inr t) = λ o hs s c. t _ _ _ _ _ _ _ hs

called-IsTracked :
    (env : Env) (w v : World)
    → v.msgstates ≡ w.msgstates
    → ((v.calls ≡ w.calls) ⊎ ((c : RdCall) × IsMetadata c × (v.calls ≡ c ∷ w.calls)))
    → IsTracked env w
    → IsTracked env v
called-IsTracked env w v m (inl e) = same-IsTracked env w v m (ap marks e)
called-IsTracked env w v m (inr (c, k, e)) =
    neutral-IsTracked env c w v (neutral c k) m (ap marks e)
  where
    neutral : (c : RdCall) → IsMetadata c → IsNeutral env c
    neutral (RdCall.metadata topic t) k = metadata-IsNeutral env topic t
    neutral _ k = absurd k

offsets_reported :
    (env : Env) (offsets metadata : Object) (t : Option Seconds) (w : World)
    → ((c : RdCall) → AreReported w.msgstates (events_of env c w))
    → AreReported w.msgstates (offsets_events env (parsed (offsets, metadata, t)) w)
offsets_reported env offsets metadata t w h = converted (py_to_c_parts offsets w).0
  where
    read :
        (parts : List CPart) (b : Text) (o : Option LibError)
        → AreReported w.msgstates (elim o [
          | none ↦
              events_of env (RdCall.send_offsets parts b (timeout_ms (or_else t default_seconds))) w
          | some e ↦ []
        ])
    read parts b none = h _
    read parts b (some e) = tt

    with_metadata :
        (parts : List CPart) (m : Object) → AreReported w.msgstates (offsets_call env parts m t w)
    with_metadata parts (bytes b) = read parts b (env.read_metadata b)
    with_metadata parts _ = tt

    converted :
        (r : Result (List CPart))
        → AreReported w.msgstates
            (elim r [ ok parts ↦ offsets_call env parts metadata t w | null ↦ [] | fault ↦ [] ])
    converted (ok parts) = with_metadata parts metadata
    converted null = tt
    converted fault = tt

list_topics-Runs :
    (env : Env) (topic : Option Text) (timeout : Option Seconds) (w : World)
    → env.imports (codes "confluent_kafka.admin") ≡ true
    → IsOpen w
    → Runs env w (list_topics env (parsed (topic, timeout)) w)
list_topics-Runs env topic timeout w i h =
    let l = list_topics-Lists env topic timeout w i h in
    record {
      survives = Lists-survives w (list_topics env (parsed (topic, timeout)) w) l;
      releases = record {
        open_client = l.open_client;
        lists = l.owns.lists;
        messages = l.owns.messages;
        lib_errors = l.owns.lib_errors;
        metadatas = l.owns.metadatas;
        headers = l.owns.headers;
        held = l.owns.held;
      };
      steps =
          same-Steps w (list_topics env (parsed (topic, timeout)) w).1 l.next_msgstate
            l.owns.msgstates;
      tracks =
          called-IsTracked env w (list_topics env (parsed (topic, timeout)) w).1 l.owns.msgstates
            l.called;
    }

queue_len-Runs : (env : Env) (w : World) → IsOpen w → Runs env w (queue_len env w)
unfolding queue_len
queue_len-Runs env w h =
    subst
      (λ b.
        Runs {A = ℕ} env w
          (elim b [ true ↦ (ok (env.out_queue_len w.calls), w) | false ↦ (fault, w) ]))
      (sym h.rk) (nothing-Runs env (ok (env.out_queue_len w.calls)) w.error w h (λ x. cc))

call_method-Runs :
    (env : Env) (m : Method) (w : World)
    → Promises env
    → Encodes env
    → Delivers env m
    → IsOpen w
    → IsTracked env w
    → Runs env w (call_method env m w)
unfolding call_method Produce.produce Serve.poll Serve.flush list_topics
    Transaction.init_transactions Transaction.send_offsets_to_transaction
    Transaction.commit_transaction Transaction.abort_transaction
call_method-Runs env (Method.produce (parsed a)) w p c d h t =
    forget-Runs env (Produce.produce env (parsed a)) w
      (Messages.produce-Runs env a w c h (hands_over env a w d))
call_method-Runs env (Method.poll (parsed a)) w p c d h t =
    forget-Runs env (Serve.poll env (parsed a)) w
      (Serving.poll-Runs env a w h (reported_lem env w _ p t))
call_method-Runs env (Method.flush (parsed a)) w p c d h t =
    forget-Runs env (Serve.flush env (parsed a)) w
      (Serving.flush-Runs env a w h (reported_lem env w _ p t))
call_method-Runs env (Method.list_topics (parsed (topic, timeout))) w p c d h t =
    forget-Runs env (list_topics env (parsed (topic, timeout))) w
      (list_topics-Runs env topic timeout w p.importable h)
call_method-Runs env (Method.init_transactions (parsed a)) w p c d h t =
    forget-Runs env (Transaction.init_transactions env (parsed a)) w
      (Transactions.init_transactions-Runs env a w h (reported_lem env w _ p t))
call_method-Runs env Method.begin_transaction w p c d h t =
    forget-Runs env (Transaction.begin_transaction env) w
      (Transactions.begin_transaction-Runs env w h)
call_method-Runs env (Method.send_offsets_to_transaction (parsed (offsets, metadata, a))) w p c d h
      t =
    forget-Runs env (Transaction.send_offsets_to_transaction env (parsed (offsets, metadata, a))) w
      (Transactions.send_offsets_to_transaction-Runs env offsets metadata a w h
        (offsets_reported env offsets metadata a w (λ c. reported_lem env w c p t)))
call_method-Runs env (Method.commit_transaction (parsed a)) w p c d h t =
    forget-Runs env (Transaction.commit_transaction env (parsed a)) w
      (Transactions.commit_transaction-Runs env a w h (reported_lem env w _ p t))
call_method-Runs env (Method.abort_transaction (parsed a)) w p c d h t =
    forget-Runs env (Transaction.abort_transaction env (parsed a)) w
      (Transactions.abort_transaction-Runs env a w h (reported_lem env w _ p t))
call_method-Runs env Method.len w p c d h t =
    forget-Runs env (queue_len env) w (queue_len-Runs env w h)
call_method-Runs env (Method.produce (rejected n)) w p c d h t =
    nothing-Runs env null (some (application n)) w h (λ x. cc)
call_method-Runs env (Method.poll (rejected n)) w p c d h t =
    nothing-Runs env null (some (application n)) w h (λ x. cc)
call_method-Runs env (Method.flush (rejected n)) w p c d h t =
    nothing-Runs env null (some (application n)) w h (λ x. cc)
call_method-Runs env (Method.list_topics (rejected n)) w p c d h t =
    nothing-Runs env null (some (application n)) w h (λ x. cc)
call_method-Runs env (Method.init_transactions (rejected n)) w p c d h t =
    nothing-Runs env null (some (application n)) w h (λ x. cc)
call_method-Runs env (Method.send_offsets_to_transaction (rejected n)) w p c d h t =
    nothing-Runs env null (some (application n)) w h (λ x. cc)
call_method-Runs env (Method.commit_transaction (rejected n)) w p c d h t =
    nothing-Runs env null (some (application n)) w h (λ x. cc)
call_method-Runs env (Method.abort_transaction (rejected n)) w p c d h t =
    nothing-Runs env null (some (application n)) w h (λ x. cc)

-- In every session of an open Producer, where librdkafka reports in each call only messages in flight,
-- each once, and refuses no message that has headers, and texts can be encoded: the process survives, the Producer is open
-- with the lock held behind it, and all that the methods owned is freed but for msgstates. The live
-- msgstates are at the end those of the messages in flight, which librdkafka took and has not
-- reported, if they were at the start; they follow the steps of the abstract queue, and their
-- numbers stay different.
pub run_methods-Steps :
    (env : Env) (ms : List Method) (w : World)
    → Promises env
    → Encodes env
    → AllDeliver env ms
    → IsOpen w
    → IsNumbered (queue_of w)
    → IsTracked env w
    → (v : World) × (run_methods env ms w ≡ some v)
      × Releases w v
      × Steps (queue_of w) (queue_of v)
      × IsNumbered (queue_of v)
      × IsTracked env v
unfolding run_methods
run_methods-Steps env [] w p c d h n t =
    let here : Runs env w (ok tt, w) = nothing-Runs env (ok tt) w.error w h (λ x. cc) in
    (w, refl, here.releases, idle, n, t)
run_methods-Steps env (m ∷ ms) w p c d h n t =
    go (call_method env m w) (call_method-Runs env m w p c d.0 h t)
      (λ u. run_methods-Steps env ms u p c d.1)
  where
    Good : Option World → World → Type 0
    Good o w =
        (v : World) × (o ≡ some v)
        × Releases w v
        × Steps (queue_of w) (queue_of v)
        × IsNumbered (queue_of v)
        × IsTracked env v

    later :
        (o : Option World) (u : World)
        → Releases w u
        → Steps (queue_of w) (queue_of u)
        → Good o u
        → Good o w
    later o u r s (v, e, r1, s1, n1, t1) = (v, e, Releases-trans r r1, Steps-trans s s1, n1, t1)

    go :
        (r : Result (Unit {0}) × World)
        → Runs env w r
        → ((u : World)
            → IsOpen u
            → IsNumbered (queue_of u)
            → IsTracked env u
            → Good (run_methods env ms u) u)
        → let x : Option World = elim r.0 [
          | ok _ ↦ run_methods env ms r.1
          | null ↦ run_methods env ms r.1
          | fault ↦ none
        ] in
          Good x w
    go (ok a, u) k next =
        later (run_methods env ms u) u k.releases k.steps
          (next u k.releases.open_client (Steps-IsNumbered k.steps n) (k.tracks t))
    go (null, u) k next =
        later (run_methods env ms u) u k.releases k.steps
          (next u k.releases.open_client (Steps-IsNumbered k.steps n) (k.tracks t))
    go (fault, u) k next = absurd (k.survives refl)

-- ===== src/Producer/Runs.antt =====
-- Each method of a Producer: what it frees, and its step of the messages in flight.
pub mod Serving
pub mod Transactions
pub mod Messages
use confluent_kafka_python.Base.{
  ap, ℕ, suc, ◌≡◌, ◌≢◌, refl, sym, subst, ◌∙◌, inl, inr, ◌⊎◌, Bool, true, false, not, ltb, Option,
  none, some, List, [], ◌∷◌, arith, Option-cases,
}
use confluent_kafka_python.Base.Int.{ℤ, pos, negsuc, eqb_ℤ}
use confluent_kafka_python.Base.Text.{Text, codes}
use confluent_kafka_python.Object.{Object, none_object, Exception, application, bytes}
use confluent_kafka_python.KafkaError.{LibError}
use confluent_kafka_python.Format.{Seconds, default_seconds, timeout_ms}
use confluent_kafka_python.Headers.{Header, headers_to_c}
use confluent_kafka_python.Headers.Laws.{headers_to_c_cases}
use confluent_kafka_python.World.{
  World, Env, Event, RdCall, CPart, M, Result, ok, null, fault, Parsed, parsed, rejected, pure,
  return_null, ◌>>=◌, ◌>>◌,
}
use confluent_kafka_python.World.Laws.{marks, Survives, Returns}
use confluent_kafka_python.CallState
use confluent_kafka_python.Callbacks.{
  States, call_serving, msgstate_new, msgstate_destroy, find, remove,
}
use confluent_kafka_python.TopicPartition.Lists.{py_to_c_parts}
use confluent_kafka_python.Consumer.Method.{forget}
use confluent_kafka_python.Consumer.Offsets.{or_else}
use confluent_kafka_python.Consumer.Balance.{py_to_c_parts_cases}
use confluent_kafka_python.Consumer.Balance.Blocking.{finish_quiet, finish_signal}
use confluent_kafka_python.Admin.Accounts.{IsOpen, begin_lem}
use confluent_kafka_python.Metadata.{list_topics}
use confluent_kafka_python.Metadata.Listed.{Lists, list_topics-Lists}
use confluent_kafka_python.Producer.Produce.{
  ProduceArgs, produce, send, headers_arg, alias, delivery_callback,
}
use confluent_kafka_python.Producer.Serve.{poll, poll0, served, flush, end_flush}
use confluent_kafka_python.Producer.Transaction.{
  init_transactions, begin_transaction, send_offsets_to_transaction, commit_transaction,
  abort_transaction, blocking, own_error,
}
use confluent_kafka_python.Producer.Outcome.{the_call}
use confluent_kafka_python.Producer.Reports.{AreReported, left}
use confluent_kafka_python.Producer.Reports.Freed.{Leaves, bind}
use confluent_kafka_python.Producer.Ends.{
  Ended, events_of, inside, serving-Leaves, blocking-Ended, offsets-Ended, with_offsets,
}
use confluent_kafka_python.Producer.Flight.{
  IsTracked, IsServing, IsNeutral, ids, taken, unreported, ids-left, in_flight,
}
use confluent_kafka_python.Producer.Queue.{
  queue_of, Queue, Step, takes, reports, Steps, idle, follow,
}

-- The Producer is open with the lock held, and nothing but msgstates is owned that was not before.
pub record Releases (w v : World) : Type 0 where
  pub open_client : IsOpen v
  pub lists : v.lists ≡ w.lists
  pub messages : v.messages ≡ w.messages
  pub lib_errors : v.lib_errors ≡ w.lib_errors
  pub metadatas : v.metadatas ≡ w.metadatas
  pub headers : v.headers ≡ w.headers
  pub held : v.held ≡ w.held

pub Releases-trans : {u v w : World} → Releases u v → Releases v w → Releases u w
Releases-trans h k = record {
  open_client = k.open_client;
  lists = k.lists ∙ h.lists;
  messages = k.messages ∙ h.messages;
  lib_errors = k.lib_errors ∙ h.lib_errors;
  metadatas = k.metadatas ∙ h.metadatas;
  headers = k.headers ∙ h.headers;
  held = k.held ∙ h.held;
}

-- The method ends by a value or an exception, has made steps of the queue, and the live msgstates are
-- still those of the messages in flight.
pub record Runs {A : Type 0} (env : Env) (w : World) (r : Result A × World) : Type 0 where
  pub survives : Survives r.0
  pub releases : Releases w r.1
  pub steps : Steps (queue_of w) (queue_of r.1)
  pub tracks : IsTracked env w → IsTracked env r.1

-- The steps that the msgstates behind a method tell.
pub same-Steps :
    (w v : World)
    → v.next_msgstate ≡ w.next_msgstate
    → v.msgstates ≡ w.msgstates
    → Steps (queue_of w) (queue_of v)
same-Steps w v n m =
    subst (λ k. Steps (queue_of w) (record { next = k; waiting = v.msgstates })) (sym n)
      (subst (λ ms. Steps (queue_of w) (record { next = w.next_msgstate; waiting = ms })) (sym m)
        idle)

pub report-Steps :
    (es : List Event) (w v : World)
    → AreReported w.msgstates es
    → v.next_msgstate ≡ w.next_msgstate
    → v.msgstates ≡ left w.msgstates es
    → Steps (queue_of w) (queue_of v)
report-Steps es w v a n m =
    subst (λ k. Steps (queue_of w) (record { next = k; waiting = v.msgstates })) (sym n)
      (subst (λ ms. Steps (queue_of w) (record { next = w.next_msgstate; waiting = ms })) (sym m)
        (follow idle (reports es a)))

-- And what they tell of the messages in flight.
pub same-IsTracked :
    (env : Env) (w v : World)
    → v.msgstates ≡ w.msgstates
    → marks v.calls ≡ marks w.calls
    → IsTracked env w
    → IsTracked env v
same-IsTracked env w v m k h = ap ids m ∙ h ∙ ap (taken env) (sym k)

pub neutral-IsTracked :
    (env : Env) (c : RdCall) (w v : World)
    → IsNeutral env c
    → v.msgstates ≡ w.msgstates
    → marks v.calls ≡ marks (c ∷ w.calls)
    → IsTracked env w
    → IsTracked env v
neutral-IsTracked env c w v n m k h = ap ids m ∙ h ∙ sym (n w.calls) ∙ ap (taken env) (sym k)

pub report-IsTracked :
    (env : Env) (c : RdCall) (w v : World)
    → IsServing env c
    → v.msgstates ≡ left w.msgstates (events_of env c w)
    → marks v.calls ≡ marks (c ∷ w.calls)
    → IsTracked env w
    → IsTracked env v
report-IsTracked env c w v s m k h =
    ap ids m
    ∙ ids-left w.msgstates (events_of env c w)
    ∙ ap (λ ns. unreported ns (events_of env c w)) h
    ∙ sym (s w.calls)
    ∙ ap (taken env) (sym k)

pub forget-Runs :
    {A : Type 0} (env : Env) (m : M A) (w : World) → Runs env w (m w) → Runs env w (forget m w)
forget-Runs {A} env m w h = go (m w) h
  where
    go :
        (r : Result A × World)
        → Runs env w r
        → let x : Result (Unit {0}) × World = elim r.0 [
          | ok _ ↦ (ok tt, r.1)
          | null ↦ (null, r.1)
          | fault ↦ (fault, r.1)
        ] in
          Runs env w x
    go (ok a, u) e = record {
      survives = λ x. cc;
      releases = e.releases;
      steps = e.steps;
      tracks = e.tracks;
    }
    go (null, u) e = record {
      survives = λ x. cc;
      releases = e.releases;
      steps = e.steps;
      tracks = e.tracks;
    }
    go (fault, u) e = absurd (e.survives refl)

-- An exception for the arguments, or another end before any call.
pub nothing-Runs :
    {A : Type 0} (env : Env) (r : Result A) (x : Option Exception) (w : World)
    → IsOpen w
    → r ≢ fault
    → Runs env w (r, record w { error = x })
nothing-Runs env r x w h n = record {
  survives = n;
  releases = ground arith;
  steps = same-Steps w (record w { error = x }) refl refl;
  tracks = λ h. h;
}

pub Ended-Runs :
    (env : Env) (cs : List RdCall) (ms : States) (error : Option LibError) (w : World)
    (r : Result Object × World)
    → Steps (queue_of w) (queue_of r.1)
    → (IsTracked env w → IsTracked env r.1)
    → Ended env cs ms error w r
    → Runs env w r
Ended-Runs env cs ms error w r steps tracks e = record {
  survives = survived r.0 e.result;
  releases = record {
    open_client = record { rk = e.rk; gil = e.gil; tls = e.tls };
    lists = e.lists;
    messages = e.messages;
    lib_errors = e.lib_errors;
    metadatas = e.metadatas;
    headers = e.headers;
    held = e.held;
  };
  steps = steps;
  tracks = tracks;
}
  where
    survived :
        {B : Type 0} (x : Result Object)
        → ((x ≡ ok none_object) × (error ≡ none)) ⊎ ((x ≡ null) × B)
        → Survives x
    survived x (inl (q, e)) = λ z. absurd (ground arith)
    survived x (inr (q, e)) = λ z. absurd (ground arith)

-- Behind a call that serves reports.
pub serving-Ended-Runs :
    (env : Env) (c : RdCall) (error : Option LibError) (w : World) (r : Result Object × World)
    → IsServing env c
    → AreReported w.msgstates (events_of env c w)
    → Ended env (c ∷ w.calls) (left w.msgstates (events_of env c w)) error w r
    → Runs env w r
serving-Ended-Runs env c error w r s a e =
    Ended-Runs env (c ∷ w.calls) (left w.msgstates (events_of env c w)) error w r
      (report-Steps (events_of env c w) w r.1 a e.next_msgstate e.msgstates)
      (report-IsTracked env c w r.1 s e.msgstates e.marked) e

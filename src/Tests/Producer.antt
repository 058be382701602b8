-- ===== src/Tests/Producer.antt =====
-- The theorems on the Producer and on message headers at concrete inputs.
use confluent_kafka_python.Base.{ℕ, ◌≡◌, refl, ◌⊎◌, ◌∷◌, none, some, inl, inr, arith, List, []}
use confluent_kafka_python.Base.Int.{pos, negsuc}
use confluent_kafka_python.Base.Text.{codes}
use confluent_kafka_python.Object.{Object, bytes, str, tuple, list, nil, cons, callable, Exception}
use confluent_kafka_python.Headers.{
  Header, headers_to_c, header_to_c, header_value, add_list, c_string,
}
use confluent_kafka_python.Headers.Laws.{IsUncoded, headers_to_c_cases}
use confluent_kafka_python.World.{
  World, Env, CMessage, Event, RdCall, delivery_event, producer, ok, null, fault, parsed, rejected,
}
use confluent_kafka_python.World.Laws.{Returns}
use confluent_kafka_python.Callbacks.{serve, find, remove}
use confluent_kafka_python.Producer.Produce.{ProduceArgs, produce}
use confluent_kafka_python.Producer.Outcome.{produce_leak}
use confluent_kafka_python.Producer.Reports.{AreReported, left, serve-reports}
use confluent_kafka_python.Producer.Reports.Freed.{Leaves}
use confluent_kafka_python.Format.{default_seconds, timeout_ms}
use confluent_kafka_python.Producer.Transaction.{commit_transaction}
use confluent_kafka_python.Producer.Ends.{Ended, commit_transaction-Ended}
use confluent_kafka_python.Producer.Method.{Method, run_methods}
use confluent_kafka_python.Producer.Queue.{queue_of, Steps, IsNumbered}
use confluent_kafka_python.Producer.Runs.{Releases}
use confluent_kafka_python.Producer.Session.{Promises, run_methods-Steps}
use confluent_kafka_python.Producer.Flight.{ids, has, taken, in_flight, AreDue, IsTracked}
use confluent_kafka_python.Tests.{broker, started, polling}

-- A broker that refuses every message, with a full queue.
abbrev full_broker : Env
full_broker = record broker { code = λ calls c. negsuc 183; to_str = λ o. some (codes "trace") }

abbrev plain : ProduceArgs
plain = record {
  topic = codes "orders";
  value = some (codes "v");
  key = none;
  partition = negsuc 0;
  callback = none;
  on_delivery = some (callable 2);
  timestamp = pos 0;
  headers = none;
}

abbrev trace : Object
trace = list (cons (tuple (cons (str (codes "trace")) (cons (bytes (codes "x")) nil))) nil)

abbrev traced : ProduceArgs
traced = record plain { headers = some trace }

headers_to_c_cases_example :
    ((hs : List Header) × (headers_to_c full_broker trace started
        ≡ (ok hs, record started { headers = 1 })))
    ⊎ ((e : Exception) × (headers_to_c full_broker trace started
          ≡ (null, record started { error = some e })))
    ⊎ (IsUncoded full_broker
        × (headers_to_c full_broker trace started ≡ (fault, record started { headers = 1 })))
headers_to_c_cases_example = headers_to_c_cases full_broker trace started

-- A full queue's code is also what rd_kafka_header_add does not return here.
trace_converts :
    headers_to_c full_broker trace started
    ≡ (ok ((codes "trace", some (codes "x")) ∷ []), record started { headers = 1 })
unfolding headers_to_c add_list header_to_c header_value c_string
trace_converts = refl

produce_leak_example :
    let (r, w') = produce full_broker (parsed traced) started in
    (r ≡ null) × (w'.msgstates ≡ []) × (w'.headers ≡ 1)
produce_leak_example =
    produce_leak full_broker traced trace ((codes "trace", some (codes "x")) ∷ []) started
      (record started { headers = 1 }) refl refl (λ e. cc) trace_converts (λ e. cc)

-- Two messages in flight, the second with a callback of its own.
abbrev two_waiting : World
two_waiting = record polling {
  client_type = producer;
  msgstates = (1, some (callable 2)) ∷ (0, none) ∷ [];
  next_msgstate = 2;
}

abbrev delivered : ℕ → CMessage
delivered n = record {
  err = pos 0;
  error_text = [];
  topic = some (codes "orders");
  payload = some (codes "v");
  key = none;
  partition = pos 0;
  offset = pos 4;
  timestamp = pos 0;
  timestamp_type = 0;
  headers = none;
  msgstate = some n;
}

abbrev both : List Event
both = delivery_event (delivered 0) ∷ delivery_event (delivered 1) ∷ []

both-AreReported : AreReported two_waiting.msgstates both
unfolding find remove
both-AreReported = (λ e. cc, (λ e. cc, tt))

serve-reports_example :
    let (r, w') = serve broker both two_waiting in
    Returns r × Leaves (left two_waiting.msgstates both) two_waiting w'
serve-reports_example =
    serve-reports broker both two_waiting both-AreReported (refl, refl, refl, refl)

none_left : left two_waiting.msgstates both ≡ []
unfolding remove
none_left = refl

commit_transaction-Ended_example :
    Ended broker
      (RdCall.commit_transaction (timeout_ms default_seconds) ∷ [])
      (left started.msgstates [])
      none
      started
      (commit_transaction broker (parsed none) started)
commit_transaction-Ended_example = commit_transaction-Ended broker none started refl refl tt

-- A broker that reports in a poll the message that was handed over just before.
abbrev reports_last : List RdCall → RdCall → List Event
reports_last (RdCall.producev topic partition value key timestamp n hs ∷ cs) (RdCall.poll t) =
    delivery_event (delivered n) ∷ []
reports_last cs c = []

abbrev reporting : Env
reporting = record broker { events = reports_last; to_str = λ o. some (codes "trace") }

last_due : (cs : List RdCall) (c : RdCall) → AreDue (in_flight reporting cs) (reporting.events cs c)
unfolding taken has
last_due (RdCall.producev topic partition value key timestamp n hs ∷ cs) (RdCall.poll t) =
    (ground arith, tt)
last_due cs c = tt

reporting-Promises : Promises reporting
reporting-Promises = record { importable = refl; reported = last_due }

-- Two messages, the second with headers; a poll in between reports the first.
abbrev methods : List Method
methods =
    Method.produce (parsed plain)
    ∷ Method.poll (parsed none)
    ∷ Method.len
    ∷ Method.produce (parsed traced)
    ∷ Method.flush (rejected 3)
    ∷ Method.commit_transaction (parsed none)
    ∷ []

run_methods-Steps_example :
    (v : World) × (run_methods reporting methods started ≡ some v)
    × Releases started v
    × Steps (queue_of started) (queue_of v)
    × IsNumbered (queue_of v)
    × IsTracked reporting v
unfolding ids taken
run_methods-Steps_example =
    run_methods-Steps reporting methods started reporting-Promises (λ t. (t, refl))
      (
        inl refl,
        (tt, (tt, (inr (λ cs topic partition value key timestamp n hs. refl), (tt, (tt, tt))))),
      )
      (record { rk = refl; gil = refl; tls = refl }) tt refl

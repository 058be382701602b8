-- ===== src/Tests.antt =====
-- The theorems at concrete inputs, and runs of the code: a Consumer with an `on_assign` callback,
-- whose one poll() serves a rebalance.
mod Producer
mod Objects
mod Admin
mod Clients
mod Start
use Prim.Native.String.{String}
use confluent_kafka_python.Base.{
  ℕ, ◌≡◌, ◌≢◌, refl, ◌⊎◌, inl, inr, ◌+◌, ◌↔◌, ◌≤◌, length, map, arith, Bool, true, false, Option,
  none, some, List, [], ◌∷◌, if◌then◌else◌,
}
use Prim.Native.Nat.{max}
use confluent_kafka_python.Base.Int.{ℤ, pos, negsuc, eqb_ℤ}
use confluent_kafka_python.Base.Text.{codes, strcmp}
use confluent_kafka_python.Base.Words.{sub_int}
use confluent_kafka_python.CallState
use confluent_kafka_python.Consumer.Fetch
use confluent_kafka_python.Object.{
  Object, TopicPartition, list, topic_partition, callable, nil, of_list, cons, Exception,
  runtime_error,
}
use confluent_kafka_python.KafkaError.{LibError, new_from_error, new_or_none, str, buffer_len}
use confluent_kafka_python.World.{
  gives, World, Env, RdCall, CPart, Event, rebalance_event, commit_event, Script, assigns,
  unassigns, consumer, Result, ok, null, fault, parsed,
}
use confluent_kafka_python.World.Laws.{Survives, Stays, Returns}
use confluent_kafka_python.TopicPartition.{hash, richcompare}
use confluent_kafka_python.KafkaError.{lt, le, eq, ne, gt, ge}
use confluent_kafka_python.TopicPartition.Order.{
  richcompare-eq, richcompare-Before, hash-richcompare, richcompare_overflow, Same, Before,
}
use confluent_kafka_python.TopicPartition.Lists.{
  collect, c_parts_to_py, py_to_c_parts, py_to_c_parts-c_parts_to_py, placed,
}
use confluent_kafka_python.KafkaError.Laws.{new_from_error_lem}
use confluent_kafka_python.Callbacks.Released.{IsReleased}
use confluent_kafka_python.Callbacks.{
  call_serving, dispatch, invoke, do_acts, do_act, serve, rebalance_cb, err_assign, err_revoke,
}
use confluent_kafka_python.Callbacks.Served.{AreServable, serve-Returns}
use confluent_kafka_python.Callbacks.Rebalance.{rebalance_cb-assigns, rebalance_cb-fallback}
use confluent_kafka_python.Callbacks.Rebalance.Calls.{assign_calls}
use confluent_kafka_python.Consumer.Balance.{IsReady, Behaves}
use confluent_kafka_python.Consumer.Balance.Ending.{IsClosed, close-IsClosed}
use confluent_kafka_python.Consumer.Lifecycle.{close}
use confluent_kafka_python.Consumer.Method
use confluent_kafka_python.Consumer.Method.{Method, call_method}
use confluent_kafka_python.Consumer.Closed.{call_method-closed, call_method-pause}

abbrev part : CPart
part = record {
  topic = codes "orders";
  partition = pos 0;
  offset = pos 7;
  metadata = some (codes "m");
  opaque = none;
  err = pos 0;
}

abbrev part_object : TopicPartition
part_object = record { topic = codes "orders"; partition = pos 1; offset = pos 0; error = none }

abbrev other_part : TopicPartition
other_part = record { topic = codes "orders"; partition = pos 2; offset = pos 5; error = none }

-- A poll serves an assignment and then a revocation, of which the Consumer has a callback for the
-- first.
abbrev events : List RdCall → RdCall → List Event
events calls (RdCall.consumer_poll t) =
    rebalance_event err_assign (part ∷ []) ∷ rebalance_event err_revoke (part ∷ []) ∷ []
events calls c = []

-- The application assigns, removes the assignment and raises.
abbrev script : Script
script = record {
  acts = assigns (list (cons (topic_partition part_object) nil)) ∷ unassigns ∷ [];
  catches = false;
  raises = some 3;
}

abbrev broker : Env
broker = record {
  code = λ calls c. pos 0;
  lib_error = λ calls c. none;
  parts = λ calls c. part ∷ [];
  message = λ calls c. none;
  batch = λ calls c. some [];
  watermarks = λ calls c. (pos 0, pos 9);
  events = events;
  commit_result = λ calls c. (pos 0, some (part ∷ []));
  topic_new = λ calls t. true;
  last_error = λ calls. pos 0;
  fatal_error = λ calls. (pos 0, []);
  out_queue_len = λ calls. 0;
  err2str = λ err. codes "Success";
  group_metadata = λ calls. some (none, codes "group");
  read_metadata = λ t. none;
  header_add = λ k v. pos 0;
  log_name = codes "rdkafka#consumer-1";
  throttle_type = true;
  throttle_raises = none;
  signal = λ calls. none;
  to_str = λ o. none;
  utf8 = λ t. some t;
  from_utf8 = λ t. some t;
  is_true = λ o. true;
  is_callable = λ o. true;
  show = λ z. codes "1";
  builds = λ calls. true;
  supports = λ api. true;
  setter = λ c s. none;
  conf_set = λ settings name value. none;
  create = λ conf. none;
  tss_create = true;
  old_library = false;
  version = codes "1.5.0";
  resolve_plugins = gives;
  same_key = λ k l. false;
  dict_of = λ o. inl 0;
  metadata = λ calls c. (
    pos 0,
    record { brokers = []; topics = []; orig_broker_id = pos 1; orig_broker_name = none },
  );
  cluster_id = none;
  controller_id = pos 1;
  imports = λ m. true;
  has_class = λ c. true;
  construct = λ c kwargs. gives (Object.instance_object 0);
  set_attr = λ c name. none;
  run = λ f args. script;
}

abbrev started : World
started = record {
  client_type = consumer;
  rk = true;
  rkqu = true;
  error_cb = none;
  throttle_cb = none;
  stats_cb = none;
  logger = none;
  default_dr_cb = none;
  dr_only_error = false;
  rebalance_assigned = 0;
  on_assign = some (callable 1);
  on_revoke = none;
  on_commit = none;
  gil = true;
  tls = false;
  saved = false;
  crashed = 0;
  error = none;
  calls = [];
  lists = 0;
  messages = 0;
  lib_errors = 0;
  metadatas = 0;
  headers = 0;
  msgstates = [];
  next_msgstate = 0;
  held = record {
    confs = 0;
    options = 0;
    objects = 0;
    queues = 0;
    topics = 0;
    metadata = 0;
    strings = 0;
    futures = [];
    settled = [];
  };
}

-- Inside the poll.
abbrev polling : World
polling = record started { gil = false; tls = true; saved = true }

abbrev ended : World
ended = record started { rk = false; rkqu = false }

started-IsReady : IsReady started
started-IsReady = record { rk = refl; rkqu = refl; gil = refl; tls = refl }

polling-IsReleased : IsReleased polling
polling-IsReleased = (refl, refl, refl, refl)

events-AreServable : (calls : List RdCall) (c : RdCall) → AreServable (events calls c)
events-AreServable calls (RdCall.consumer_poll t) = (tt, (tt, tt))
events-AreServable calls _ = tt

broker-Behaves : Behaves broker
broker-Behaves = record {
  servable = events-AreServable;
  importable = refl;
  reported = λ calls parts h k e. cc;
}

abbrev poll : Method
poll = Method.poll (parsed none)

-- The run of the poll: the application's two calls and the fallback's one, behind the poll itself.
poll_calls :
    (call_method broker poll started).1.calls
    ≡ RdCall.assign none
      ∷ RdCall.yield
      ∷ RdCall.assign none
      ∷ RdCall.assign (
          some (
            record {
              topic = codes "orders";
              partition = pos 1;
              offset = pos 0;
              metadata = none;
              opaque = none;
              err = pos 0;
            }
            ∷ []))
      ∷ RdCall.consumer_poll (negsuc 0)
      ∷ []
unfolding call_method Fetch.poll call_serving dispatch rebalance_cb CallState.get invoke do_acts
    do_act py_to_c_parts collect CallState.resume
poll_calls = refl

rebalance_cb-assigns_example :
    let (r, w') = rebalance_cb broker err_assign (part ∷ []) polling in
    (r ≡ ok tt)
    × IsReleased w'
    × (assign_calls w'.calls ≡ assign_calls polling.calls + max 1 w'.rebalance_assigned)
rebalance_cb-assigns_example =
    rebalance_cb-assigns broker err_assign (part ∷ []) polling polling-IsReleased refl

rebalance_cb-fallback_example :
    (rebalance_cb broker err_revoke (part ∷ []) polling).1.calls
    ≡ RdCall.assign (if eqb_ℤ err_revoke err_assign then some (part ∷ []) else none) ∷ []
rebalance_cb-fallback_example =
    rebalance_cb-fallback broker err_revoke (part ∷ []) polling polling-IsReleased refl

close-IsClosed_example :
    Survives (close broker started).0 × IsClosed started (close broker started).1
close-IsClosed_example = close-IsClosed broker started broker-Behaves started-IsReady

call_method-closed_example :
    call_method broker Method.unsubscribe ended
    ≡ (null, record ended { error = some (runtime_error "Consumer closed") })
call_method-closed_example =
    call_method-closed broker Method.unsubscribe "Consumer closed" ended refl refl

collected :
    collect (cons (topic_partition part_object) nil)
    ≡ some (
        record {
          topic = codes "orders";
          partition = pos 1;
          offset = pos 0;
          metadata = none;
          opaque = none;
          err = pos 0;
        }
        ∷ [])
unfolding collect
collected = refl

call_method-pause_example :
    ((call_method broker
        (Method.pause (parsed (list (cons (topic_partition part_object) nil))))
        ended).0
      ≡ fault)
    × ((call_method broker
          (Method.resume (parsed (list (cons (topic_partition part_object) nil))))
          ended).0
        ≡ fault)
    × ((call_method broker (Method.list_topics (parsed (none, none))) ended).0 ≡ fault)
call_method-pause_example =
    call_method-pause broker (cons (topic_partition part_object) nil)
      (record {
        topic = codes "orders";
        partition = pos 1;
        offset = pos 0;
        metadata = none;
        opaque = none;
        err = pos 0;
      }
        ∷ [])
      none none ended refl collected

serve-Returns_example :
    let (r, w') = serve broker (events [] (RdCall.consumer_poll (pos 0))) polling in
    Returns r × Stays polling w'
serve-Returns_example =
    serve-Returns broker (events [] (RdCall.consumer_poll (pos 0))) polling
      (events-AreServable [] (RdCall.consumer_poll (pos 0))) polling-IsReleased

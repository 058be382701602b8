-- ===== src/Consumer/Closed.antt =====
-- The methods of a closed Consumer.
use Prim.Native.String.{String}
use confluent_kafka_python.Base.{◌≡◌, false, Option, none, some, List, arith}
use confluent_kafka_python.Object.{Objects, list, runtime_error}
use confluent_kafka_python.World.{World, Env, CPart, null, fault, parsed}
use confluent_kafka_python.TopicPartition.Lists.{collect}
use confluent_kafka_python.Consumer.Assignment
use confluent_kafka_python.Consumer.Subscription
use confluent_kafka_python.Consumer.Offsets
use confluent_kafka_python.Consumer.Flow
use confluent_kafka_python.Consumer.Fetch
use confluent_kafka_python.Consumer.Lifecycle
use confluent_kafka_python.CallState
use confluent_kafka_python.Format.{Seconds}
use confluent_kafka_python.Base.Text.{Text}
use confluent_kafka_python.Metadata.{list_topics, own_topic}
use confluent_kafka_python.Consumer.Method.{Method, call_method}

-- The text of the exception; `none` for the three methods that do not test.
abbrev pub closed_text : Method → Option String
closed_text (Method.pause args) = none
closed_text (Method.resume args) = none
closed_text (Method.list_topics args) = none
closed_text Method.close = some "Consumer already closed"
closed_text _ = some "Consumer closed"

-- On a closed Consumer every method but pause(), resume() and list_topics() raises RuntimeError before
-- it looks at its arguments, calls nothing of librdkafka and changes nothing but the error indicator.
pub call_method-closed :
    (env : Env) (m : Method) (text : String) (w : World)
    → w.rk ≡ false
    → closed_text m ≡ some text
    → call_method env m w ≡ (null, record w { error = some (runtime_error text) })
unfolding call_method Assignment.assign Assignment.unassign Subscription.subscribe
    Subscription.unsubscribe Subscription.assignment Offsets.commit Offsets.store_offsets
    Offsets.committed Offsets.position Offsets.offsets_for_times Flow.seek
    Flow.get_watermark_offsets Fetch.poll Fetch.consume Lifecycle.close
    Lifecycle.consumer_group_metadata
call_method-closed env (Method.pause args) text w h e = cc
call_method-closed env (Method.resume args) text w h e = cc
call_method-closed env (Method.list_topics args) text w h e = cc
call_method-closed env _ text w h e = ground arith

list_topics-closed :
    (env : Env) (topic : Option Text) (timeout : Option Seconds) (w : World)
    → w.rk ≡ false
    → (call_method env (Method.list_topics (parsed (topic, timeout))) w).0 ≡ fault
unfolding call_method list_topics own_topic CallState.begin
list_topics-closed env none timeout w h = ground arith
list_topics-closed env (some t) timeout w h = ground arith

-- pause() and resume() of a closed Consumer, with a list of TopicPartitions, and list_topics() with
-- any arguments that parse hand librdkafka the client's NULL pointer.
pub call_method-pause :
    (env : Env) (os : Objects) (parts : List CPart) (topic : Option Text) (timeout : Option Seconds)
    (w : World)
    → w.rk ≡ false
    → collect os ≡ some parts
    → ((call_method env (Method.pause (parsed (list os))) w).0 ≡ fault)
      × ((call_method env (Method.resume (parsed (list os))) w).0 ≡ fault)
      × ((call_method env (Method.list_topics (parsed (topic, timeout))) w).0 ≡ fault)
unfolding call_method Flow.pause Flow.resume
call_method-pause env os parts topic timeout w h e =
    (ground arith, ground arith, list_topics-closed env topic timeout w h)

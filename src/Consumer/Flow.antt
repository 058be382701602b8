-- ===== src/Consumer/Flow.antt =====
-- Consumer_pause, Consumer_resume, Consumer_seek and Consumer_get_watermark_offsets of
-- confluent_kafka/src/Consumer.c.
use confluent_kafka_python.Base.{Bool, true, false, not, Option, ◌++◌}
use confluent_kafka_python.Base.Int.{ℤ, pos, eqb_ℤ}
use confluent_kafka_python.Base.Text.{codes}
use confluent_kafka_python.Object.{
  Object, nil, cons, tuple, int, topic_partition, none_object, type_error, TopicPartition,
}
use confluent_kafka_python.TopicPartition.Lists.{py_to_c_parts}
use confluent_kafka_python.World.{
  Env, RdCall, M, Parsed, parse, pure, raise, raise_if, gets, destroy_list, allow_threads,
  call_code, kafka_failure, ◌>>=◌, ◌>>◌,
}
use confluent_kafka_python.Format.{failure, timeout_ms, Seconds, default_seconds}
use confluent_kafka_python.Consumer.Assignment.{require_open}
use confluent_kafka_python.Consumer.Offsets.{or_else}

-- Neither of the two tests for a closed consumer.
unfoldable pub pause : Env → Parsed Object → M Object
unfolding py_to_c_parts
pause env args = do
  plist ← parse args
  parts ← py_to_c_parts plist
  err ← call_code env (RdCall.pause_partitions parts)
  destroy_list
  failure env err "Failed to pause partitions: "
  pure none_object

unfoldable pub resume : Env → Parsed Object → M Object
unfolding py_to_c_parts
resume env args = do
  plist ← parse args
  parts ← py_to_c_parts plist
  err ← call_code env (RdCall.resume_partitions parts)
  destroy_list
  failure env err "Failed to resume partitions: "
  pure none_object

abbrev as_partition : Object → M TopicPartition
as_partition (topic_partition tp) = pure tp
as_partition other = raise (type_error "expected cimpl.TopicPartition")

-- rd_kafka_topic_new and the exception where it gives no topic.
abbrev require_topic : Env → TopicPartition → M (Unit {0})
require_topic env tp = do
  found ← gets (λ w. env.topic_new w.calls tp.topic)
  last ← gets (λ w. env.last_error w.calls)
  raise_if (not found) (
      kafka_failure env last (
        codes "Failed to get topic object for topic \""
        ++ (tp.topic ++ (codes "\": " ++ env.err2str last))))

-- The topic object is made and destroyed in the call.
unfoldable pub seek : Env → Parsed Object → M Object
seek env args = do
  require_open
  o ← parse args
  tp ← as_partition o
  require_topic env tp
  err ← allow_threads (call_code env (RdCall.seek tp.topic tp.partition tp.offset))
  raise_if (not (eqb_ℤ err (pos 0))) (
      kafka_failure env err (
        codes "Failed to seek to offset "
        ++ (env.show tp.offset ++ (codes ": " ++ env.err2str err))))
  pure none_object

abbrev watermarks_call : TopicPartition → Option Seconds → Bool → RdCall
watermarks_call tp timeout true = RdCall.get_watermark_offsets tp.topic tp.partition
watermarks_call tp timeout false =
    RdCall.query_watermark_offsets tp.topic tp.partition
      (timeout_ms (or_else timeout default_seconds))

-- The answer from the cache is had without releasing the lock.
abbrev watermarks_code : Env → RdCall → Bool → M ℤ
watermarks_code env c true = call_code env c
watermarks_code env c false = allow_threads (call_code env c)

unfoldable pub get_watermark_offsets : Env → Parsed (Object × Option Seconds × Bool) → M Object
unfolding timeout_ms
get_watermark_offsets env args = do
  require_open
  a ← parse args
  tp ← as_partition a.0
  let c = watermarks_call tp a.1 a.2
  marks ← gets (λ w. env.watermarks w.calls c)
  err ← watermarks_code env c a.2
  failure env err "Failed to get watermark offsets: "
  pure (tuple (cons (int marks.0) (cons (int marks.1) nil)))

-- ===== src/Consumer/Subscription.antt =====
-- Consumer_subscribe, Consumer_unsubscribe and Consumer_assignment of confluent_kafka/src/Consumer.c.
use Prim.Native.String.{String}
use mathlib.Core.Option
use confluent_kafka_python.Base.{not, Option, none, some, List, [], ◌∷◌}
use confluent_kafka_python.Base.Int.{pos}
use confluent_kafka_python.Base.Text.{Text}
use confluent_kafka_python.Object.{Object, Objects, nil, cons, list, none_object, type_error}
use confluent_kafka_python.TopicPartition.{partition_ua, offset_invalid}
use confluent_kafka_python.TopicPartition.Lists.{c_parts_to_py}
use confluent_kafka_python.World.{
  Env, RdCall, CPart, M, as_utf8, Parsed, parse, pure, raise, raise_if, gets, modify, new_list,
  destroy_list, call_code, ◌>>=◌, ◌>>◌,
}
use confluent_kafka_python.Headers.{c_string}
use confluent_kafka_python.Format.{failure}
use confluent_kafka_python.Consumer.Assignment.{require_open}

abbrev as_list : Object → String → M Objects
as_list (list os) text = pure os
as_list other text = raise (type_error text)

abbrev pub check_callable : Env → Option Object → String → M (Unit {0})
check_callable env none text = pure tt
check_callable env (some f) text = raise_if (not (env.is_callable f)) (type_error text)

abbrev pub topic_part : Text → CPart
topic_part topic = record {
  topic = topic;
  partition = partition_ua;
  offset = offset_invalid;
  metadata = none;
  opaque = none;
  err = pos 0;
}

-- The loop over the topics, by their str; `none` if one has none.
unfoldable pub topic_parts : Env → Objects → M (Option (List CPart))
topic_parts env nil = pure (some [])
topic_parts env (cons o os) = elim (env.to_str o) [
  | none ↦ pure none
  | some topic ↦ as_utf8 env topic >>= λ b.
      topic_parts env os >>= λ rest. pure (Option.map (◌∷◌ (topic_part (c_string b))) rest)
]

abbrev pub c_topics : Env → Objects → M (List CPart)
c_topics env os = do
  new_list
  parts ← topic_parts env os
  elim parts [
    | some parts ↦ pure parts
    | none ↦ destroy_list >> raise (type_error "expected list of unicode strings")
  ]

-- The rest of Consumer_subscribe: the call, and the callbacks replaced if it succeeded.
abbrev pub subscribe_to : Env → Option Object → Option Object → List CPart → M Object
subscribe_to env on_assign on_revoke topics = do
  err ← call_code env (RdCall.subscribe topics)
  destroy_list
  failure env err "Failed to set subscription: "
  modify (λ w. record w { on_assign = on_assign; on_revoke = on_revoke })
  pure none_object

unfoldable pub subscribe : Env → Parsed (Object × Option Object × Option Object) → M Object
subscribe env args = do
  require_open
  a ← parse args
  names ← as_list a.0 "expected list of topic unicode strings"
  check_callable env a.1 "on_assign expects a callable"
  check_callable env a.2 "on_revoke expects a callable"
  c_topics env names >>= subscribe_to env a.1 a.2

unfoldable pub unsubscribe : Env → M Object
unsubscribe env = do
  require_open
  err ← call_code env RdCall.unsubscribe
  failure env err "Failed to remove subscription: "
  pure none_object

-- librdkafka gives the extension a list of its own.
unfoldable pub assignment : Env → M Object
assignment env = do
  require_open
  parts ← gets (λ w. env.parts w.calls RdCall.assignment)
  err ← call_code env RdCall.assignment
  failure env err "Failed to get assignment: "
  new_list
  let plist = c_parts_to_py env.err2str parts
  destroy_list
  pure plist

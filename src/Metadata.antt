-- ===== src/Metadata.antt =====
-- confluent_kafka/src/Metadata.c: list_topics, which all clients share, and the conversion of its
-- result. An instance of a Python class stands as the dict of the attributes that are set on it.
pub mod Converted
pub mod Listed
use confluent_kafka_python.Base.{
  ℕ, zero, suc, Bool, true, false, not, Option, none, some, List, [], ◌∷◌, ◌++◌, map, if◌then◌else◌,
}
use confluent_kafka_python.Base.Int.{ℤ, pos, eqb_ℤ}
use confluent_kafka_python.Base.Text.{Text, codes}
use confluent_kafka_python.Object.{
  Object, none_object, int, str, list, dict, of_list, Entries, end, entry, Exception, runtime_error,
  application,
}
use confluent_kafka_python.KafkaError.{new_or_none}
use confluent_kafka_python.Message.{error_object}
use confluent_kafka_python.World.{
  World, Env, Held, RdCall, CPartition, CTopic, CBroker, CMetadata, Answer, gives, throws, M,
  Result, ok, null, fault, Parsed, parse, pure, raise, raise_if, return_null, gets, when,
  kafka_failure, ◌>>=◌, ◌>>◌,
}
use confluent_kafka_python.CallState
use confluent_kafka_python.Format.{timeout_ms, Seconds, default_seconds}
use confluent_kafka_python.Consumer.Offsets.{or_else}
use confluent_kafka_python.Dict.{set_text, set_item}
use confluent_kafka_python.Admin.Request.{lookup}

-- PyObject_CallObject of a class without arguments.
abbrev pub new_instance : Env → Text → M (Unit {0})
new_instance env name = elim (env.construct name end) [
  | gives o ↦ pure tt
  | throws n ↦ raise (application n)
]

-- PyObject_SetAttrString of an instance of a class.
unfoldable pub set_attribute : Env → Text → Text → Object → Entries → M Entries
unfolding set_text
set_attribute env class name v es = elim (env.set_attr class name) [
  | none ↦ pure (set_text name v es)
  | some n ↦ raise (application n)
]

abbrev pub error_of : Env → ℤ → Object
error_of env err = error_object (new_or_none env.err2str err none)

-- cfl_int32_array_to_py_list
abbrev pub int_list : List ℤ → Object
int_list zs = list (of_list (map int zs))

abbrev pub partition_class : Text
partition_class = codes "PartitionMetadata"

abbrev pub topic_class : Text
topic_class = codes "TopicMetadata"

abbrev pub broker_class : Text
broker_class = codes "BrokerMetadata"

abbrev pub cluster_class : Text
cluster_class = codes "ClusterMetadata"

-- A round of c_partitions_to_py
unfoldable pub partition_to_py : Env → CPartition → M Object
unfolding set_attribute new_or_none error_object
partition_to_py env p = do
  new_instance env partition_class
  a ← set_attribute env partition_class (codes "id") (int p.id) end
  a ← set_attribute env partition_class (codes "leader") (int p.leader) a
  a ← set_attribute env partition_class (codes "error") (error_of env p.err) a
  a ← set_attribute env partition_class (codes "replicas") (int_list p.replicas) a
  a ← set_attribute env partition_class (codes "isrs") (int_list p.isrs) a
  pure (dict a)

-- The loops, which fill the dict `es`.
unfoldable pub add_partitions : Env → List CPartition → Entries → M Entries
unfolding partition_to_py set_item
add_partitions env [] es = pure es
add_partitions env (p ∷ ps) es =
    partition_to_py env p >>= λ o. add_partitions env ps (set_item env (int p.id) o es)

unfoldable pub partitions_to_py : Env → List CPartition → M Object
unfolding lookup add_partitions
partitions_to_py env ps = do
  lookup env partition_class
  es ← add_partitions env ps end
  pure (dict es)

-- A round of c_topics_to_py
unfoldable pub topic_to_py : Env → CTopic → M Object
unfolding set_attribute new_or_none error_object partitions_to_py
topic_to_py env t = do
  new_instance env topic_class
  a ← set_attribute env topic_class (codes "topic") (str t.topic) end
  a ← set_attribute env topic_class (codes "error") (error_of env t.err) a
  ps ← partitions_to_py env t.partitions
  a ← set_attribute env topic_class (codes "partitions") ps a
  pure (dict a)

unfoldable pub add_topics : Env → List CTopic → Entries → M Entries
unfolding topic_to_py set_text
add_topics env [] es = pure es
add_topics env (t ∷ ts) es = topic_to_py env t >>= λ o. add_topics env ts (set_text t.topic o es)

unfoldable pub topics_to_py : Env → List CTopic → M Object
unfolding lookup add_topics
topics_to_py env ts = do lookup env topic_class; es ← add_topics env ts end; pure (dict es)

-- A round of c_brokers_to_py
unfoldable pub broker_to_py : Env → CBroker → M Object
unfolding set_attribute
broker_to_py env b = do
  new_instance env broker_class
  a ← set_attribute env broker_class (codes "id") (int b.id) end
  a ← set_attribute env broker_class (codes "host") (str b.host) a
  a ← set_attribute env broker_class (codes "port") (int b.port) a
  pure (dict a)

unfoldable pub add_brokers : Env → List CBroker → Entries → M Entries
unfolding broker_to_py set_item
add_brokers env [] es = pure es
add_brokers env (b ∷ bs) es =
    broker_to_py env b >>= λ o. add_brokers env bs (set_item env (int b.id) o es)

unfoldable pub brokers_to_py : Env → List CBroker → M Object
unfolding lookup add_brokers
brokers_to_py env bs = do lookup env broker_class; es ← add_brokers env bs end; pure (dict es)

-- An attribute that is set where there is a text.
abbrev pub set_if_given : Env → Text → Text → Option Text → Entries → M Entries
set_if_given env class name t es = elim t [
  | none ↦ pure es
  | some t ↦ set_attribute env class name (str t) es
]

-- c_metadata_to_py
unfoldable pub metadata_to_py : Env → CMetadata → M Object
unfolding lookup set_attribute brokers_to_py topics_to_py
metadata_to_py env m = do
  lookup env cluster_class
  new_instance env cluster_class
  a ← set_attribute env cluster_class (codes "controller_id") (int env.controller_id) end
  a ← set_if_given env cluster_class (codes "cluster_id") env.cluster_id a
  a ← set_attribute env cluster_class (codes "orig_broker_id") (int m.orig_broker_id) a
  a ← set_if_given env cluster_class (codes "orig_broker_name") m.orig_broker_name a
  bs ← brokers_to_py env m.brokers
  a ← set_attribute env cluster_class (codes "brokers") bs a
  ts ← topics_to_py env m.topics
  a ← set_attribute env cluster_class (codes "topics") ts a
  pure (dict a)

-- A call through `rk`, and what librdkafka gives: the metadata is owned where there is no error.
abbrev pub with_metadata : World → RdCall → ℤ → World
with_metadata w c err = record w {
  calls = c ∷ w.calls;
  held = record w.held {
    metadata = if eqb_ℤ err (pos 0) then suc w.held.metadata else w.held.metadata;
  };
}

abbrev pub get_metadata : Env → RdCall → M (ℤ × CMetadata)
get_metadata env c w = elim w.rk [
  | false ↦ (fault, w)
  | true ↦ (ok (env.metadata w.calls c), with_metadata w c (env.metadata w.calls c).0)
]

abbrev pub destroy_metadata : M (Unit {0})
destroy_metadata w = elim w.held.metadata [
  | zero ↦ (fault, w)
  | suc n ↦ (ok tt, record w { held = record w.held { metadata = n } })
]

abbrev pub destroy_topic : M (Unit {0})
destroy_topic w = elim w.held.topics [
  | zero ↦ (fault, w)
  | suc n ↦ (ok tt, record w { held = record w.held { topics = n } })
]

-- rd_kafka_topic_new, where a topic is given.
unfoldable pub own_topic : Env → Option Text → M (Unit {0})
own_topic env none w = (ok tt, w)
own_topic env (some t) w = elim w.rk [
  | false ↦ (fault, w)
  | true ↦ elim (env.topic_new w.calls t) [
    | false ↦ (null, record w { error = some (runtime_error "Unable to create topic object") })
    | true ↦ (ok tt, record w { held = record w.held { topics = suc w.held.topics } })
  ]
]

-- What precedes the label `end`.
abbrev pub metadata_result : Env → Bool → ℤ × CMetadata → M Object
metadata_result env fine r = elim fine [
  | false ↦ return_null
  | true ↦ elim (eqb_ℤ r.0 (pos 0)) [
    | false ↦ raise (kafka_failure env r.0 (codes "Failed to get metadata: " ++ env.err2str r.0))
    | true ↦ metadata_to_py env r.1
  ]
]

-- The label `end`.
abbrev pub release : Option Text → ℤ → M (Unit {0})
release topic err =
    when (eqb_ℤ err (pos 0)) destroy_metadata
    >> elim topic [ none ↦ pure tt | some t ↦ destroy_topic ]

abbrev pub finally : {A : Type 0} → M A → M (Unit {0}) → M A
finally m last w =
    let (r, w') = m w in
    elim r [ ok a ↦ (last >> pure a) w' | null ↦ (last >> return_null) w' | fault ↦ (fault, w') ]

unfoldable pub list_topics : Env → Parsed (Option Text × Option Seconds) → M Object
unfolding timeout_ms own_topic CallState.begin CallState.finish metadata_to_py
list_topics env args = do
  (topic, timeout) ← parse args
  own_topic env topic
  CallState.begin
  r ← get_metadata env (RdCall.metadata topic (timeout_ms (or_else timeout default_seconds)))
  fine ← CallState.finish env
  finally (metadata_result env fine r) (release topic r.0)

-- ===== src/Metadata/Converted.antt =====
-- The conversions of metadata change nothing but the error indicator.
use confluent_kafka_python.Base.{◌≡◌, refl, true, Option, List, [], ◌∷◌}
use confluent_kafka_python.Base.Text.{Text, codes}
use confluent_kafka_python.Object.{Object, int, str, dict, Entries, end, application}
use confluent_kafka_python.World.{
  Env, CPartition, CTopic, CBroker, CMetadata, Answer, gives, throws, M, pure, raise, ◌>>=◌, ◌>>◌,
}
use confluent_kafka_python.World.Quiet.{IsQuiet, IsQuiet->>=, option-IsQuiet}
use confluent_kafka_python.Dict.{set_text, set_item}
use confluent_kafka_python.Admin.Request.{lookup}
use confluent_kafka_python.Admin.Settled.{lookup-IsQuiet}
use confluent_kafka_python.Metadata.{
  new_instance, set_attribute, error_of, int_list, partition_class, topic_class, broker_class,
  cluster_class, partition_to_py, add_partitions, partitions_to_py, topic_to_py, add_topics,
  topics_to_py, broker_to_py, add_brokers, brokers_to_py, set_if_given, metadata_to_py,
}

new_instance-IsQuiet : (env : Env) (name : Text) → IsQuiet (new_instance env name)
new_instance-IsQuiet env name = made-IsQuiet (env.construct name end)
  where
    made : Answer → M (Unit {0})
    made a = elim a [ gives o ↦ pure tt | throws n ↦ raise (application n) ]

    made-IsQuiet : (a : Answer) → IsQuiet (made a)
    made-IsQuiet (gives o) = λ w. (w.error, refl)
    made-IsQuiet (throws n) = λ w. (_, refl)

set_attribute-IsQuiet :
    (env : Env) (class name : Text) (v : Object) (es : Entries)
    → IsQuiet (set_attribute env class name v es)
unfolding set_attribute
set_attribute-IsQuiet env class name v es =
    option-IsQuiet (env.set_attr class name) (pure (set_text name v es))
      (λ n. raise (application n)) (λ w. (w.error, refl)) (λ n w. (_, refl))

set_if_given-IsQuiet :
    (env : Env) (class name : Text) (t : Option Text) (es : Entries)
    → IsQuiet (set_if_given env class name t es)
set_if_given-IsQuiet env class name t es =
    option-IsQuiet t (pure es) (λ t. set_attribute env class name (str t) es) (λ w. (w.error, refl))
      (λ t. set_attribute-IsQuiet env class name (str t) es)

-- An attribute is set, and then the others.
attribute :
    (env : Env) (class name : Text) (v : Object) (es : Entries) {B : Type 0} (k : Entries → M B)
    → ((a : Entries) → IsQuiet (k a))
    → IsQuiet (set_attribute env class name v es >>= k)
attribute env class name v es k h =
    IsQuiet->>= (set_attribute env class name v es) k (set_attribute-IsQuiet env class name v es) h

-- The last attribute.
last_attribute :
    (env : Env) (class name : Text) (v : Object) (es : Entries)
    → IsQuiet (set_attribute env class name v es >>= λ a. pure (dict a))
last_attribute env class name v es =
    attribute env class name v es (λ a. pure (dict a)) (λ a w. (w.error, refl))

partition_to_py-IsQuiet : (env : Env) (p : CPartition) → IsQuiet (partition_to_py env p)
unfolding partition_to_py
partition_to_py-IsQuiet env p =
    IsQuiet->>= (new_instance env partition_class) (λ _. set (codes "id") (int p.id) end >>= leader)
      (new_instance-IsQuiet env partition_class)
      λ _. attribute env partition_class (codes "id") (int p.id) end leader λ a.
        attribute env partition_class (codes "leader") (int p.leader) a error λ a.
          attribute env partition_class (codes "error") (error_of env p.err) a replicas λ a.
            attribute env partition_class (codes "replicas") (int_list p.replicas) a isrs
              λ a. last_attribute env partition_class (codes "isrs") (int_list p.isrs) a
  where
    set : Text → Object → Entries → M Entries
    set name v a = set_attribute env partition_class name v a

    isrs : Entries → M Object
    isrs a = set (codes "isrs") (int_list p.isrs) a >>= λ a. pure (dict a)

    replicas : Entries → M Object
    replicas a = set (codes "replicas") (int_list p.replicas) a >>= isrs

    error : Entries → M Object
    error a = set (codes "error") (error_of env p.err) a >>= replicas

    leader : Entries → M Object
    leader a = set (codes "leader") (int p.leader) a >>= error

-- A loop over elements, each converted and put in the dict.
as_dict :
    (env : Env) (class : Text) (m : M Entries)
    → env.imports (codes "confluent_kafka.admin") ≡ true
    → IsQuiet m
    → IsQuiet (lookup env class >> (m >>= λ es. pure (dict es)))
as_dict env class m i h =
    IsQuiet->>= (lookup env class) (λ _. m >>= λ es. pure (dict es)) (lookup-IsQuiet env class i)
      (λ _. IsQuiet->>= m (λ es. pure (dict es)) h (λ es w. (w.error, refl)))

add_partitions-IsQuiet :
    (env : Env) (ps : List CPartition) (es : Entries) → IsQuiet (add_partitions env ps es)
unfolding add_partitions
add_partitions-IsQuiet env [] es = λ w. (w.error, refl)
add_partitions-IsQuiet env (p ∷ ps) es =
    IsQuiet->>= (partition_to_py env p) (λ o. add_partitions env ps (set_item env (int p.id) o es))
      (partition_to_py-IsQuiet env p)
      (λ o. add_partitions-IsQuiet env ps (set_item env (int p.id) o es))

partitions_to_py-IsQuiet :
    (env : Env) (ps : List CPartition)
    → env.imports (codes "confluent_kafka.admin") ≡ true
    → IsQuiet (partitions_to_py env ps)
unfolding partitions_to_py
partitions_to_py-IsQuiet env ps i =
    as_dict env partition_class (add_partitions env ps end) i (add_partitions-IsQuiet env ps end)

topic_to_py-IsQuiet :
    (env : Env) (t : CTopic)
    → env.imports (codes "confluent_kafka.admin") ≡ true
    → IsQuiet (topic_to_py env t)
unfolding topic_to_py
topic_to_py-IsQuiet env t i =
    IsQuiet->>= (new_instance env topic_class)
      (λ _. set_attribute env topic_class (codes "topic") (str t.topic) end >>= error)
      (new_instance-IsQuiet env topic_class)
      λ _. attribute env topic_class (codes "topic") (str t.topic) end error λ a.
        attribute env topic_class (codes "error") (error_of env t.err) a partitions λ a.
          IsQuiet->>= (partitions_to_py env t.partitions) (last a)
            (partitions_to_py-IsQuiet env t.partitions i)
            (λ ps. last_attribute env topic_class (codes "partitions") ps a)
  where
    last : Entries → Object → M Object
    last a ps = set_attribute env topic_class (codes "partitions") ps a >>= λ a. pure (dict a)

    partitions : Entries → M Object
    partitions a = partitions_to_py env t.partitions >>= last a

    error : Entries → M Object
    error a = set_attribute env topic_class (codes "error") (error_of env t.err) a >>= partitions

add_topics-IsQuiet :
    (env : Env) (ts : List CTopic) (es : Entries)
    → env.imports (codes "confluent_kafka.admin") ≡ true
    → IsQuiet (add_topics env ts es)
unfolding add_topics
add_topics-IsQuiet env [] es i = λ w. (w.error, refl)
add_topics-IsQuiet env (t ∷ ts) es i =
    IsQuiet->>= (topic_to_py env t) (λ o. add_topics env ts (set_text t.topic o es))
      (topic_to_py-IsQuiet env t i) (λ o. add_topics-IsQuiet env ts (set_text t.topic o es) i)

broker_to_py-IsQuiet : (env : Env) (b : CBroker) → IsQuiet (broker_to_py env b)
unfolding broker_to_py
broker_to_py-IsQuiet env b =
    IsQuiet->>= (new_instance env broker_class)
      (λ _. set_attribute env broker_class (codes "id") (int b.id) end >>= host)
      (new_instance-IsQuiet env broker_class)
      λ _. attribute env broker_class (codes "id") (int b.id) end host λ a.
        attribute env broker_class (codes "host") (str b.host) a port
          λ a. last_attribute env broker_class (codes "port") (int b.port) a
  where
    port : Entries → M Object
    port a = set_attribute env broker_class (codes "port") (int b.port) a >>= λ a. pure (dict a)

    host : Entries → M Object
    host a = set_attribute env broker_class (codes "host") (str b.host) a >>= port

add_brokers-IsQuiet :
    (env : Env) (bs : List CBroker) (es : Entries) → IsQuiet (add_brokers env bs es)
unfolding add_brokers
add_brokers-IsQuiet env [] es = λ w. (w.error, refl)
add_brokers-IsQuiet env (b ∷ bs) es =
    IsQuiet->>= (broker_to_py env b) (λ o. add_brokers env bs (set_item env (int b.id) o es))
      (broker_to_py-IsQuiet env b) (λ o. add_brokers-IsQuiet env bs (set_item env (int b.id) o es))

pub metadata_to_py-IsQuiet :
    (env : Env) (m : CMetadata)
    → env.imports (codes "confluent_kafka.admin") ≡ true
    → IsQuiet (metadata_to_py env m)
unfolding metadata_to_py brokers_to_py topics_to_py
metadata_to_py-IsQuiet env m i =
    IsQuiet->>= (lookup env cluster_class)
      (λ _.
        new_instance env cluster_class
        >> (set (codes "controller_id") (int env.controller_id) end >>= id))
      (lookup-IsQuiet env cluster_class i)
      λ _.
        IsQuiet->>= (new_instance env cluster_class)
          (λ _. set (codes "controller_id") (int env.controller_id) end >>= id)
          (new_instance-IsQuiet env cluster_class)
          λ _.
            attribute env cluster_class (codes "controller_id") (int env.controller_id) end id λ a.
              IsQuiet->>= (set_if_given env cluster_class (codes "cluster_id") env.cluster_id a)
                broker
                (set_if_given-IsQuiet env cluster_class (codes "cluster_id") env.cluster_id a)
                λ a.
                  attribute env cluster_class (codes "orig_broker_id") (int m.orig_broker_id) a name
                    λ a.
                      IsQuiet->>=
                        (set_if_given env cluster_class (codes "orig_broker_name")
                          m.orig_broker_name a)
                        brokers
                        (set_if_given-IsQuiet env cluster_class (codes "orig_broker_name")
                          m.orig_broker_name a)
                        λ a.
                          IsQuiet->>= (brokers_to_py env m.brokers) (with_brokers a)
                            (as_dict env broker_class (add_brokers env m.brokers end) i
                              (add_brokers-IsQuiet env m.brokers end))
                            λ bs. attribute env cluster_class (codes "brokers") bs a topics λ a.
                              IsQuiet->>= (topics_to_py env m.topics) (with_topics a)
                                (as_dict env topic_class (add_topics env m.topics end) i
                                  (add_topics-IsQuiet env m.topics end i))
                                (λ ts. last_attribute env cluster_class (codes "topics") ts a)
  where
    set : Text → Object → Entries → M Entries
    set name v a = set_attribute env cluster_class name v a

    with_topics : Entries → Object → M Object
    with_topics a ts = set (codes "topics") ts a >>= λ a. pure (dict a)

    topics : Entries → M Object
    topics a = topics_to_py env m.topics >>= with_topics a

    with_brokers : Entries → Object → M Object
    with_brokers a bs = set (codes "brokers") bs a >>= topics

    brokers : Entries → M Object
    brokers a = brokers_to_py env m.brokers >>= with_brokers a

    name : Entries → M Object
    name a =
        set_if_given env cluster_class (codes "orig_broker_name") m.orig_broker_name a >>= brokers

    broker : Entries → M Object
    broker a = set (codes "orig_broker_id") (int m.orig_broker_id) a >>= name

    id : Entries → M Object
    id a = set_if_given env cluster_class (codes "cluster_id") env.cluster_id a >>= broker

-- ===== src/Tests/Admin.antt =====
-- The theorems on the AdminClient at concrete inputs.
use confluent_kafka_python.Base.{true, ◌≡◌, refl, false, none, some, List, [], ◌∷◌}
use confluent_kafka_python.Base.Int.{pos, negsuc}
use confluent_kafka_python.Base.Text.{codes}
use confluent_kafka_python.KafkaError.{new_or_none}
use confluent_kafka_python.Object.{Object, str, int, list, dict, nil, cons, end, entry, Entries}
use confluent_kafka_python.World.{World, Env, Outcome, ClientType, ok}
use confluent_kafka_python.AdminTypes.{NewTopic, NewPartitions}
use confluent_kafka_python.Admin.Options.{no_options}
use confluent_kafka_python.Admin.Build.{item, not_instance, Resource}
use confluent_kafka_python.Admin.Request.{Arguments, drop_ref}
use confluent_kafka_python.Admin.Event.{
  AdminEvent, topics_created, configs_described, config_entry, and_entry, no_entry, TopicResult,
  topic_result_to_py,
}
use confluent_kafka_python.Admin.Background.{background_event_cb}
use confluent_kafka_python.Admin.Settled.{Tells, background_event_cb-settles}
use confluent_kafka_python.Admin.Sessions.{Request, topics_to_create, configs_to_describe}
use confluent_kafka_python.Dict.{find_item}
use confluent_kafka_python.Admin.TopicResults.{last_named, error_of, topic_result_to_py-find_item}
use confluent_kafka_python.Tests.{broker, started}

abbrev admin_client : World
admin_client = record started { client_type = ClientType.admin; rkqu = false; on_assign = none }

abbrev cluster : Env
cluster = record broker { to_str = λ o. some (codes "orders") }

abbrev new_topic : NewTopic
new_topic = record {
  topic = codes "orders";
  num_partitions = pos 2;
  replication_factor = negsuc 0;
  replica_assignment =
      some (list (cons (list (cons (int (pos 1)) nil)) (cons (list (cons (int (pos 2)) nil)) nil)));
  config = some (dict (entry (str (codes "retention.ms")) (str (codes "1")) end));
}

abbrev topics : Arguments NewTopic
topics = record {
  items = some (item new_topic ∷ []);
  future = 7;
  validate_only = none;
  options = no_options;
}

-- The second element is no NewTopic.
abbrev bad_topics : Arguments NewTopic
bad_topics = record topics { items = some (item new_topic ∷ not_instance ∷ []) }

abbrev deletions : Arguments Object
deletions = record {
  items = some (item (str (codes "orders")) ∷ []);
  future = 8;
  validate_only = none;
  options = no_options;
}

abbrev partitions : Arguments NewPartitions
partitions = record {
  items = some (
      item (record { topic = codes "orders"; new_total_count = pos 4; replica_assignment = none })
      ∷ []);
  future = 9;
  validate_only = none;
  options = no_options;
}

abbrev resource : Resource
resource = record {
  restype_int = some (int (pos 2));
  name = some (str (codes "orders"));
  set_config_dict = some (dict (entry (str (codes "retention.ms")) (str (codes "1")) end));
}

abbrev resources : Arguments Resource
resources = record {
  items = some (item resource ∷ []);
  future = 4;
  validate_only = none;
  options = no_options;
}

abbrev result_of_orders : TopicResult
result_of_orders = record { name = codes "orders"; err = pos 36; text = none }

abbrev created : AdminEvent
created = record {
  future = 7;
  err = pos 0;
  text = codes "Success";
  name = codes "CreateTopicsResult";
  result = topics_created (result_of_orders ∷ []);
}

abbrev described : AdminEvent
described = record {
  future = 4;
  err = pos 0;
  text = codes "Success";
  name = codes "DescribeConfigsResult";
  result = configs_described (
      record {
        restype = pos 2;
        name = codes "orders";
        err = pos 0;
        text = none;
        configs =
            and_entry
              (config_entry (codes "retention.ms") (some (codes "1")) (pos 1) (pos 0) (pos 0)
                (pos 0) (pos 0) no_entry)
              no_entry;
      }
      ∷ []);
}

abbrev outstanding : World
outstanding = record admin_client {
  gil = false;
  held = record admin_client.held { futures = 4 ∷ [] };
}

background_event_cb-settles_example :
    (x : Outcome) × Tells cluster
      (record outstanding { gil = true; error = none })
      described
      (new_or_none cluster.err2str (pos 0) (some (codes "Success")))
      described.result
      x
    × (background_event_cb cluster described outstanding ≡ (
      ok tt,
      record outstanding {
        gil = false;
        held = record outstanding.held { futures = []; settled = (4, x) ∷ [] };
      },
    ))
unfolding drop_ref
background_event_cb-settles_example =
    background_event_cb-settles cluster described [] outstanding refl refl refl

-- Three requests, of which the second raises, and the two events in the other order.
abbrev requests : List Request
requests =
    topics_to_create topics ∷ topics_to_create bad_topics ∷ configs_to_describe resources ∷ []

abbrev events : List AdminEvent
events = created ∷ described ∷ []

topic_result_to_py-find_item_example :
    (es : Entries) × (topic_result_to_py cluster.err2str (result_of_orders ∷ []) ≡ dict es)
    × (find_item (codes "orders") es
        ≡ error_of cluster.err2str (last_named (codes "orders") (result_of_orders ∷ [])) none)
topic_result_to_py-find_item_example =
    topic_result_to_py-find_item cluster.err2str (result_of_orders ∷ []) (codes "orders")

-- ===== src/World/Library.antt =====
-- What the extension uses of librdkafka and of Python. Neither is code of the repository: their
-- answers are the fields of `Env`, which may depend on every call made of librdkafka before.
use confluent_kafka_python.Base.{ℕ, ◌⊎◌, Bool, Option, List}
use confluent_kafka_python.Base.Int.{ℤ}
use confluent_kafka_python.Base.Text.{Text}
use confluent_kafka_python.Object.{Object, Entries}
use confluent_kafka_python.KafkaError.{LibError}

-- rd_kafka_topic_partition_t; `opaque` is the application's pointer, a number here.
pub record CPart : Type 0 where
  pub topic : Text
  pub partition : ℤ
  pub offset : ℤ
  pub metadata : Option Text
  pub opaque : Option ℕ
  pub err : ℤ

-- rd_kafka_message_t; `error_text` is rd_kafka_message_errstr. A Producer's message carries the
-- number of its msgstate, the opaque pointer `_private`.
pub record CMessage : Type 0 where
  pub err : ℤ
  pub error_text : Text
  pub topic : Option Text
  pub payload : Option Text
  pub key : Option Text
  pub partition : ℤ
  pub offset : ℤ
  pub timestamp : ℤ
  pub timestamp_type : ℕ
  pub headers : Option (List (Text × Option Text))
  pub msgstate : Option ℕ

-- The five requests of an AdminClient.
pub data AdminApi : Type 0 where
  create_topics delete_topics create_partitions describe_configs alter_configs : AdminApi

-- A C object of librdkafka's Admin API is what made it: its constructor and the setters behind it,
-- the latest first.
pub data Setter : Type 0 where
  new_topic : Text → ℤ → ℤ → Setter
  delete_topic : Text → Setter
  new_partitions : Text → ℤ → Setter
  new_resource : ℤ → Option Text → Setter
  set_replicas : ℕ → List ℤ → Setter
  set_config : Text → Text → Setter
  validate_only request_timeout operation_timeout broker : ℤ → Setter

abbrev pub CObject : Type 0
CObject = List Setter

-- An rd_kafka_conf_t: the properties that were set, the latest first, and the callbacks.
pub record Conf : Type 0 where
  pub settings : List (Text × Option Text)
  pub throttle : Bool
  pub stats : Bool
  pub log : Bool
  pub delivery : Bool
  pub rebalance : Bool
  pub offset_commit : Bool
  pub background : Bool

-- rd_kafka_metadata_t
pub record CPartition : Type 0 where
  pub id : ℤ
  pub err : ℤ
  pub leader : ℤ
  pub replicas : List ℤ
  pub isrs : List ℤ

pub record CTopic : Type 0 where
  pub topic : Text
  pub err : ℤ
  pub partitions : List CPartition

pub record CBroker : Type 0 where
  pub id : ℤ
  pub host : Text
  pub port : ℤ

pub record CMetadata : Type 0 where
  pub brokers : List CBroker
  pub topics : List CTopic
  pub orig_broker_id : ℤ
  pub orig_broker_name : Option Text

-- What a call of Python code gives: a value, or the exception of that number.
pub data Answer : Type 0 where
  gives : Object → Answer
  throws : ℕ → Answer

-- The calls of librdkafka through the client's handle, with the arguments that matter.
pub data RdCall : Type 0 where
  subscribe : List CPart → RdCall
  unsubscribe assignment : RdCall
  assign : Option (List CPart) → RdCall
  commit_queue : Option (List CPart) → Bool → RdCall
  offsets_store : List CPart → RdCall
  committed : List CPart → ℤ → RdCall
  position pause_partitions resume_partitions : List CPart → RdCall
  seek : Text → ℤ → ℤ → RdCall
  get_watermark_offsets : Text → ℤ → RdCall
  query_watermark_offsets : Text → ℤ → ℤ → RdCall
  offsets_for_times : List CPart → ℤ → RdCall
  consumer_poll : ℤ → RdCall
  consume_batch_queue : ℤ → ℕ → RdCall
  consumer_group_metadata : RdCall
  consumer_close destroy queue_destroy yield set_log_queue poll_set_consumer : RdCall
  producev :
      Text → ℤ → Option Text → Option Text → ℤ → ℕ → Option (List (Text × Option Text)) → RdCall
  poll flush : ℤ → RdCall
  init_transactions commit_transaction abort_transaction : ℤ → RdCall
  begin_transaction : RdCall
  send_offsets : List CPart → Text → ℤ → RdCall
  admin : AdminApi → List CObject → CObject → ℕ → RdCall
  metadata : Option Text → ℤ → RdCall

-- The callbacks that librdkafka invokes while it serves a call.
pub data Event : Type 0 where
  error_event : ℤ → Text → Event
  throttle_event : Text → ℤ → ℕ → Event
  stats_event : Text → Event
  log_event : ℕ → Text → Text → Event
  delivery_event : CMessage → Event
  commit_event : ℤ → Option (List CPart) → Event
  rebalance_event : ℤ → List CPart → Event

-- What a Python callback does: calls of the client's assign and unassign, in order, and then its
-- end, a return or an exception. An exception of a call ends the callback unless it catches it.
pub data Act : Type 0 where
  assigns : Object → Act
  unassigns : Act

pub record Script : Type 0 where
  pub acts : List Act
  pub catches : Bool
  pub raises : Option ℕ

-- librdkafka's answers and Python's. `setter` is the text of the error with which a constructor or
-- setter refuses, behind those that made the object so far; `conf_set` the same of a property, and
-- `create` of rd_kafka_new. `to_str` is the text of str(), and `utf8` its encoding: there is none of a
-- text with a lone surrogate. `from_utf8` is the text of a
-- C string, if its bytes are UTF-8.
pub record Env : Type 0 where
  pub code : List RdCall → RdCall → ℤ
  pub lib_error : List RdCall → RdCall → Option LibError
  pub parts : List RdCall → RdCall → List CPart
  pub message : List RdCall → RdCall → Option CMessage
  pub batch : List RdCall → RdCall → Option (List CMessage)
  pub watermarks : List RdCall → RdCall → ℤ × ℤ
  pub events : List RdCall → RdCall → List Event
  pub commit_result : List RdCall → RdCall → ℤ × Option (List CPart)
  pub topic_new : List RdCall → Text → Bool
  pub last_error : List RdCall → ℤ
  pub fatal_error : List RdCall → ℤ × Text
  pub out_queue_len : List RdCall → ℕ
  pub err2str : ℤ → Text
  pub group_metadata : List RdCall → Option (Option LibError × Text)
  pub read_metadata : Text → Option LibError
  pub header_add : Text → Option Text → ℤ
  pub log_name : Text
  pub throttle_type : Bool
  pub throttle_raises : Option ℕ
  pub signal : List RdCall → Option ℕ
  pub to_str : Object → Option Text
  pub utf8 : Text → Option Text
  pub from_utf8 : Text → Option Text
  pub is_true : Object → Bool
  pub is_callable : Object → Bool
  pub show : ℤ → Text
  pub builds : List RdCall → Bool
  pub supports : AdminApi → Bool
  pub setter : CObject → Setter → Option Text
  pub conf_set : List (Text × Option Text) → Text → Option Text → Option Text
  pub create : Conf → Option Text
  pub tss_create : Bool
  pub old_library : Bool
  pub version : Text
  pub resolve_plugins : Object → Answer
  pub same_key : Object → Object → Bool
  pub dict_of : Object → ℕ ⊎ Entries
  pub metadata : List RdCall → RdCall → ℤ × CMetadata
  pub cluster_id : Option Text
  pub controller_id : ℤ
  pub imports : Text → Bool
  pub has_class : Text → Bool
  pub construct : Text → Entries → Answer
  pub set_attr : Text → Text → Option ℕ
  pub run : Object → List Object → Script

-- ===== src/Cimpl/Types.antt =====
-- _init_cimpl of confluent_kafka/src/confluent_kafka.c, with AdminTypes_Ready and AdminTypes_AddObjects
-- of AdminTypes.c, and the functions of the module. Python's part is parameters.
use confluent_kafka_python.Base.{
  Bool, ◌&&◌, Option, none, some, List, [], ◌∷◌, ◌++◌, map, if◌then◌else◌,
}
use Prim.Native.String.{String}
use confluent_kafka_python.Base.Int.{ℤ}
use confluent_kafka_python.Base.Text.{Text}
use confluent_kafka_python.Object.{Object, str, int, tuple, cons, nil}
use confluent_kafka_python.Cimpl.Errors.{Desc, Buffer, Constants, add_errs}

-- libversion and version, on the text and the number.
unfoldable pub version : Text → ℤ → Object
version text number = tuple (cons (str text) (cons (int number) nil))

-- What is added to the module: a type, the exception KafkaException, or an integer.
pub data Entry : Type 0 where
  type exception : Entry
  constant : ℤ → Entry

-- The answers of PyType_Ready, PyModule_Create and PyErr_NewExceptionWithDoc, and librdkafka's
-- constants by their names.
pub record Interpreter : Type 0 where
  pub ready : String → Bool
  pub creates : Bool
  pub makes_exception : Bool
  pub value : String → ℤ

-- `refused` is the return of NULL. `corrupted` is a write behind the documentation's buffer, and
-- `crashed` the Py_INCREF of a NULL exception.
pub data Import : Type 0 where
  refused corrupted crashed : Import
  imported : List (String × Entry) → Constants → Buffer → Import

-- AdminTypes_Ready
unfoldable pub admin_ready : Interpreter → Bool
admin_ready py = py.ready "NewTopic" && py.ready "NewPartitions"

unfoldable pub all_ready : Interpreter → Bool
unfolding admin_ready
all_ready py =
    py.ready "KafkaError"
    && py.ready "Message"
    && py.ready "TopicPartition"
    && py.ready "Producer"
    && py.ready "Consumer"
    && py.ready "_AdminClientImpl"
    && admin_ready py

abbrev constants_of : Interpreter → List String → List (String × Entry)
constants_of py names = map (λ n. (n, constant (py.value n))) names

-- AdminTypes_AddObjects
unfoldable pub admin_objects : Interpreter → List (String × Entry)
admin_objects py =
    ("NewTopic", type)
    ∷ ("NewPartitions", type)
    ∷ constants_of py (
        "CONFIG_SOURCE_UNKNOWN_CONFIG" ∷ "CONFIG_SOURCE_DYNAMIC_TOPIC_CONFIG"
        ∷ "CONFIG_SOURCE_DYNAMIC_BROKER_CONFIG" ∷ "CONFIG_SOURCE_DYNAMIC_DEFAULT_BROKER_CONFIG"
        ∷ "CONFIG_SOURCE_STATIC_BROKER_CONFIG" ∷ "CONFIG_SOURCE_DEFAULT_CONFIG" ∷ "RESOURCE_UNKNOWN"
        ∷ "RESOURCE_ANY" ∷ "RESOURCE_TOPIC" ∷ "RESOURCE_GROUP" ∷ "RESOURCE_BROKER" ∷ [])

unfoldable pub objects : Interpreter → List (String × Entry)
unfolding admin_objects
objects py =
    (("KafkaError", type)
      ∷ ("Message", type)
      ∷ ("TopicPartition", type)
      ∷ ("Producer", type)
      ∷ ("Consumer", type)
      ∷ ("_AdminClientImpl", type)
      ∷ [])
    ++ admin_objects py
    ++ (("KafkaException", exception)
        ∷ constants_of py (
            "TIMESTAMP_NOT_AVAILABLE" ∷ "TIMESTAMP_CREATE_TIME" ∷ "TIMESTAMP_LOG_APPEND_TIME"
            ∷ "OFFSET_BEGINNING" ∷ "OFFSET_END" ∷ "OFFSET_STORED" ∷ "OFFSET_INVALID" ∷ []))

-- The module is filled behind the documentation of KafkaError's constants.
abbrev pub fill_module : Interpreter → Option (Constants × Buffer) → Import
fill_module py none = corrupted
fill_module py (some (cs, doc)) =
    if py.makes_exception then imported (objects py) cs doc else crashed

unfoldable pub init_cimpl : Interpreter → List Desc → Text → Import
unfolding all_ready objects
init_cimpl py descs doc =
    if all_ready py && py.creates then fill_module py (add_errs descs [] doc) else refused

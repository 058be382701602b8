-- ===== src/Object.antt =====
-- The values that cross the C API: Python objects as the extension inspects them, the C structs
-- KafkaError (confluent_kafka/src/confluent_kafka.c) and TopicPartition
-- (confluent_kafka/src/confluent_kafka.h), and the exceptions that the code sets.
use Prim.Native.String.{String}
use confluent_kafka_python.Base.{ℕ, Bool, Option, List, [], ◌∷◌}
use confluent_kafka_python.Base.Int.{ℤ}
use confluent_kafka_python.Base.Text.{Text}

-- `text` is the field `str`; its NULL is `none`.
pub record KafkaError : Type 0 where
  pub code : ℤ
  pub text : Option Text
  pub fatal : Bool
  pub retriable : Bool
  pub txn_requires_abort : Bool

-- `error` is the field's object: None or a KafkaError.
pub record TopicPartition : Type 0 where
  pub topic : Text
  pub partition : ℤ
  pub offset : ℤ
  pub error : Option KafkaError

-- Of a Message the code outside its own methods reads the topic, the partition and the offset.
-- A ThrottleEvent holds its float, the seconds, as whole milliseconds. `instance_object` is any other
-- object, one of a user's class included.
mutual
  pub data Object : Type 0 where
    none_object : Object
    bool : Bool → Object
    int : ℤ → Object
    str : Text → Object
    bytes : Text → Object
    callable : ℕ → Object
    kafka_error : KafkaError → Object
    topic_partition : TopicPartition → Object
    message : Option Text → ℤ → ℤ → Object
    client : Object
    throttle_event : Text → ℤ → ℕ → Object
    list : Objects → Object
    tuple : Objects → Object
    dict : Entries → Object
    instance_object : ℕ → Object

  pub data Objects : Type 0 where
    nil : Objects
    cons : Object → Objects → Objects

  pub data Entries : Type 0 where
    end : Entries
    entry : Object → Object → Entries → Entries

abbrev pub of_list : List Object → Objects
of_list [] = nil
of_list (x ∷ xs) = cons x (of_list xs)

-- What PyErr_SetString and its relatives leave in the error indicator. `application` is raised by
-- Python code that the extension called, `invalid_value` is a ValueError with a text made at run time.
pub data Exception : Type 0 where
  runtime_error type_error value_error system_error overflow_error : String → Exception
  attribute_error invalid_value : Text → Exception
  encode_error : Exception
  kafka_exception : KafkaError → Exception
  buffer_full : Text → Exception
  application : ℕ → Exception

-- ===== src/KafkaError.antt =====
-- KafkaError: the constructors and the comparison of confluent_kafka/src/confluent_kafka.c.
pub mod Laws
pub mod Compare
use confluent_kafka_python.Base.{
  ℕ, Bool, true, false, not, Option, none, some, ◌++◌, take, if◌then◌else◌,
}
use confluent_kafka_python.Base.Int.{ℤ, pos, negsuc, ltb_ℤ, eqb_ℤ}
use confluent_kafka_python.Base.Text.{Text}
use confluent_kafka_python.Object.{KafkaError, Object, int, kafka_error}

-- KafkaError_init
unfoldable pub init : ℤ → Option Text → KafkaError
init code text = record {
  code = code;
  text = text;
  fatal = false;
  retriable = false;
  txn_requires_abort = false;
}

-- vsnprintf into `char buf[512]` keeps 511 bytes.
abbrev pub buffer_len : ℕ
buffer_len = 511

-- KafkaError_new0, its format expanded; `err2str` is rd_kafka_err2str.
unfoldable pub new0 : (ℤ → Text) → ℤ → Option Text → KafkaError
unfolding init
new0 err2str err none = init err (some (err2str err))
new0 err2str err (some text) = init err (some (take buffer_len text))

unfoldable pub new_or_none : (ℤ → Text) → ℤ → Option Text → Option KafkaError
unfolding new0
new_or_none err2str err text = if eqb_ℤ err (pos 0) then none else some (new0 err2str err text)

-- The fields of librdkafka's rd_kafka_error_t, as its accessors give them.
pub record LibError : Type 0 where
  pub code : ℤ
  pub string : Text
  pub is_fatal : Bool
  pub is_retriable : Bool
  pub requires_abort : Bool

-- KafkaError_new_from_error_destroy
unfoldable pub new_from_error : (ℤ → Text) → LibError → KafkaError
unfolding new0
new_from_error err2str e = record (new0 err2str e.code (some e.string)) {
  fatal = e.is_fatal;
  retriable = e.is_retriable;
  txn_requires_abort = e.requires_abort;
}

-- The object that cfl_PyErr_Fatal raises.
unfoldable pub new_fatal : (ℤ → Text) → ℤ → Text → KafkaError
unfolding new0
new_fatal err2str err reason = record (new0 err2str err (some reason)) { fatal = true }

-- KafkaError_str
unfoldable pub str : (ℤ → Text) → KafkaError → Text
str err2str e = elim e.text [ some text ↦ text | none ↦ err2str e.code ]

-- Python's comparison operators.
pub data Op : Type 0 where
  lt le eq ne gt ge : Op

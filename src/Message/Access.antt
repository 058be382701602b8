-- ===== src/Message/Access.antt =====
-- The methods of a Message, confluent_kafka/src/confluent_kafka.c: what each gives, and the message
-- behind it.
use confluent_kafka_python.Base.{true, false, Option, none, some}
use confluent_kafka_python.Base.Int.{pos, negsuc, eqb_ℤ, ltb_ℤ}
use confluent_kafka_python.Object.{Object, none_object, int, str, tuple, nil, cons}
use confluent_kafka_python.Headers.{c_headers_to_py}
use confluent_kafka_python.World.{Env, Result, ok, fault}
use confluent_kafka_python.Message.{Message, error_object}

-- A field, where NULL reads as None.
abbrev pub field_object : Option Object → Object
field_object none = none_object
field_object (some o) = o

unfoldable pub error : Message → Object
unfolding error_object
error m = error_object m.error

unfoldable pub value : Message → Object
value m = field_object m.value

unfoldable pub key : Message → Object
key m = field_object m.key

unfoldable pub topic : Message → Object
topic m = elim m.topic [ none ↦ none_object | some t ↦ str t ]

unfoldable pub partition : Message → Object
partition m = elim (eqb_ℤ m.partition (negsuc 0)) [ true ↦ none_object | false ↦ int m.partition ]

unfoldable pub offset : Message → Object
offset m = elim (ltb_ℤ m.offset (pos 0)) [ true ↦ none_object | false ↦ int m.offset ]

unfoldable pub timestamp : Message → Object
timestamp m = tuple (cons (int (pos m.timestamp_type)) (cons (int m.timestamp) nil))

-- Message_headers, which converts the C headers once, and destroys them. A list with a NULL in a tuple
-- ends the process when it is used, which is `fault` here.
unfoldable pub headers : Env → Message → Result Object × Message
unfolding c_headers_to_py
headers env m = elim m.headers [
  | some o ↦ (ok o, m)
  | none ↦ elim m.c_headers [
    | none ↦ (ok none_object, m)
    | some hs ↦ elim (c_headers_to_py env hs) [
      | none ↦ (fault, record m { c_headers = none })
      | some o ↦ (ok o, record m { headers = some o; c_headers = none })
    ]
  ]
]

unfoldable pub set_headers : Message → Object → Message
set_headers m o = record m { headers = some o }

unfoldable pub set_value : Message → Object → Message
set_value m o = record m { value = some o }

unfoldable pub set_key : Message → Object → Message
set_key m o = record m { key = some o }

-- Message_clear
unfoldable pub clear : Message → Message
clear m = record m {
  topic = none;
  value = none;
  key = none;
  error = none;
  headers = none;
  c_headers = none;
}

-- ===== src/Collect/Slots.antt =====
-- Of confluent_kafka/src/confluent_kafka.c: the clear and traverse functions of KafkaError, Message and
-- TopicPartition.
use confluent_kafka_python.Base.{
  arith, ◌≡◌, refl, Bool, false, Option, none, some, List, [], ◌∷◌, ◌++◌,
}
use confluent_kafka_python.Base.Int.{ℤ}
use confluent_kafka_python.Base.Text.{Text}
use confluent_kafka_python.Object.{Object, none_object, kafka_error}
use confluent_kafka_python.KafkaError.{new_or_none}

-- Py_VISIT, and Py_DECREF, of a pointer that is set.
abbrev pub slot : Option Object → List Object
slot none = []
slot (some o) = o ∷ []

-- An object behind its clear function, with the references that were dropped.
pub record Cleared (A : Type 0) : Type 0 where
  pub object : A
  pub dropped : List Object

-- `if (self->field) { Py_DECREF(self->field); self->field = NULL; }`, `set` being the assignment.
abbrev pub drop : {A : Type 0} → (A → Option Object) → (A → A) → Cleared A → Cleared A
drop field set c = elim (field c.object) [
  | none ↦ c
  | some o ↦ record { object = set c.object; dropped = c.dropped ++ o ∷ [] }
]

abbrev pub untouched : {A : Type 0} → A → Cleared A
untouched a = record { object = a; dropped = [] }

-- KafkaError_clear, on the field `str`.
unfoldable pub error_clear : Option Text → Option Text
error_clear none = none
error_clear (some t) = none

-- The pointers of a TopicPartition.
pub record PartSlots : Type 0 where
  pub topic : Option Text
  pub error : Option Object

abbrev pub object_of : Option Object → Object
object_of none = none_object
object_of (some o) = o

-- TopicPartition_setup; the reference of KafkaError_new_or_None is the object's.
unfoldable pub part_setup : (ℤ → Text) → Text → ℤ → PartSlots
unfolding new_or_none
part_setup err2str topic err = record {
  topic = some topic;
  error =
      some (elim (new_or_none err2str err none) [ none ↦ none_object | some e ↦ kafka_error e ]);
}

unfoldable pub part_clear : PartSlots → Cleared PartSlots
part_clear p =
    drop (λ p. p.error) (λ p. record p { error = none }) (untouched (record p { topic = none }))

unfoldable pub part_traverse : PartSlots → List Object
part_traverse p = slot p.error

-- The pointers of a Message; `c_headers` tells whether it owns a headers object of librdkafka.
pub record MessageSlots : Type 0 where
  pub topic : Option Object
  pub value : Option Object
  pub key : Option Object
  pub error : Option Object
  pub headers : Option Object
  pub c_headers : Bool

unfoldable pub message_clear : MessageSlots → Cleared MessageSlots
message_clear m =
    let c : Cleared MessageSlots =
      drop (λ m. m.headers) (λ m. record m { headers = none })
        (drop (λ m. m.error) (λ m. record m { error = none })
          (drop (λ m. m.key) (λ m. record m { key = none })
            (drop (λ m. m.value) (λ m. record m { value = none })
              (drop (λ m. m.topic) (λ m. record m { topic = none }) (untouched m))))) in
    record { object = record c.object { c_headers = false }; dropped = c.dropped }

unfoldable pub message_traverse : MessageSlots → List Object
message_traverse m = slot m.topic ++ slot m.value ++ slot m.key ++ slot m.error ++ slot m.headers

-- Nothing is held.
abbrev pub IsEmptyMessage : MessageSlots → Type 0
IsEmptyMessage m = (message_traverse m ≡ []) × (m.c_headers ≡ false)

pub part_clear-traverse :
    (p : PartSlots)
    → ((part_clear p).dropped ≡ part_traverse p) × (part_traverse (part_clear p).object ≡ [])
unfolding part_clear part_traverse
part_clear-traverse p = go p.error
  where
    go :
        (e : Option Object)
        → ((drop
              (λ (p : PartSlots). p.error)
              (λ p. record p { error = none })
              (untouched (record { topic = none; error = e }))).dropped
            ≡ slot e)
          × (slot
                (drop
                  (λ (p : PartSlots). p.error)
                  (λ p. record p { error = none })
                  (untouched (record { topic = none; error = e }))).object.error
              ≡ [])
    go none = (refl, refl)
    go (some o) = (refl, refl)

pub message_clear-traverse :
    (m : MessageSlots)
    → ((message_clear m).dropped ≡ message_traverse m) × IsEmptyMessage (message_clear m).object
unfolding message_clear message_traverse
message_clear-traverse m = ground arith

-- ===== src/Attributes.antt =====
-- The helpers of confluent_kafka/src/confluent_kafka.c that read attributes and numbers of Python
-- objects.
use confluent_kafka_python.Base.{suc, zero, Bool, true, false, Option, none, some, ltb}
use confluent_kafka_python.Base.Int.{ℤ, pos, negsuc}
use confluent_kafka_python.Base.Text.{Text}
use confluent_kafka_python.Base.Words.{wrap_int, long_half}
use confluent_kafka_python.Object.{
  Object, bool, int, str, type_error, overflow_error, attribute_error, encode_error,
}
use confluent_kafka_python.Headers.{c_string}
use confluent_kafka_python.World.{Env, M, ok, null, fault, pure, raise, set_error, ◌>>=◌, ◌>>◌}

-- The range of a C long.
abbrev pub fits_long : ℤ → Bool
fits_long (pos n) = ltb n long_half
fits_long (negsuc n) = ltb n long_half

-- cfl_PyInt_AsInt, `(int)PyLong_AsLong(o)` of an int: one that is no long sets OverflowError and
-- gives -1.
unfoldable pub as_int : ℤ → M ℤ
unfolding wrap_int
as_int z = elim (fits_long z) [
  | true ↦ pure (wrap_int z)
  | false ↦
      set_error (overflow_error "Python int too large to convert to C long") >> pure (negsuc 0)
]

-- A helper that returns 0 behind an exception, as an action that always returns: `none` is the 0.
abbrev pub try : {A : Type 0} → M A → M (Option A)
try m w =
    let (r, w') = m w in
    elim r [ ok a ↦ (ok (some a), w') | null ↦ (ok none, w') | fault ↦ (fault, w') ]

-- cfl_PyObject_GetAttr, on the attribute that the object has, if it has it; `is_type` tests the
-- exact type. An attribute that is missing and not required gives NULL, and leaves the
-- AttributeError of PyObject_GetAttrString set.
unfoldable pub get_attr : Text → Option Object → (Object → Bool) → Bool → M (Option Object)
get_attr name none is_type required = elim required [
  | true ↦ raise (type_error "Required attribute missing")
  | false ↦ set_error (attribute_error name) >> pure none
]
get_attr name (some o) is_type required = elim (is_type o) [
  | true ↦ pure (some o)
  | false ↦ raise (type_error "Expected attribute to be of another type")
]

abbrev pub is_int : Object → Bool
is_int (int n) = true
is_int _ = false

abbrev pub is_str : Object → Bool
is_str (str t) = true
is_str _ = false

-- What follows the test of the type.
abbrev pub int_value : ℤ → Option Object → M ℤ
int_value default none = pure default
int_value default (some (int n)) = as_int n
int_value default (some _) = pure default

-- cfl_PyObject_GetInt
unfoldable pub get_int : Text → Option Object → ℤ → Bool → M ℤ
unfolding get_attr as_int
get_int name o default required = get_attr name o is_int required >>= int_value default

abbrev pub own_string : M (Unit {0})
own_string w = (ok tt, record w { held = record w.held { strings = suc w.held.strings } })

-- `free`, which does nothing to a NULL.
abbrev pub free_string : Option Text → M (Unit {0})
free_string none = λ w. (ok tt, w)
free_string (some t) = λ w. elim w.held.strings [
  | zero ↦ (fault, w)
  | suc n ↦ (ok tt, record w { held = record w.held { strings = n } })
]

-- The copy is the caller's.
abbrev pub string_value : Env → Option Object → M (Option Text)
string_value env (some (str t)) = elim (env.utf8 t) [
  | none ↦ raise encode_error
  | some b ↦ own_string >> pure (some (c_string b))
]
string_value env _ = pure none

-- cfl_PyObject_GetString, with NULL as the default.
unfoldable pub get_string : Env → Text → Option Object → Bool → M (Option Text)
unfolding get_attr
get_string env name o required = get_attr name o is_str required >>= string_value env

-- cfl_PyBool_get
unfoldable pub get_bool : Object → M Bool
get_bool (bool b) = pure b
get_bool _ = raise (type_error "Expected a bool")

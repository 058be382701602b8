-- ===== src/Headers.antt =====
-- Message headers, py_headers_to_c and c_headers_to_py of confluent_kafka/src/confluent_kafka.c.
pub mod Laws
use confluent_kafka_python.Base.{
  ℕ, suc, ◌≡◌, Bool, true, false, ◌==◌, Option, none, some, List, [], ◌∷◌, ◌++◌, if◌then◌else◌,
}
use confluent_kafka_python.Base.Text.{Text, codes}
use confluent_kafka_python.Object.{
  Object, none_object, bytes, str, tuple, list, dict, Objects, nil, cons, Entries, end, entry,
  Exception, type_error, encode_error,
}
use confluent_kafka_python.Format.{failure}
use confluent_kafka_python.World.{
  World, Env, M, as_utf8, Result, ok, null, fault, pure, raise, raise_if, return_null,
  kafka_failure, own_headers, destroy_headers, ◌>>=◌, ◌>>◌,
}
use confluent_kafka_python.Base.Int.{ℤ, pos, eqb_ℤ}
use mathlib.Core.Bool.{not}
use mathlib.Core.Option

abbrev pub Header : Type 0
Header = Text × Option Text

-- The bytes of a C string, which ends before the first 0.
unfoldable pub c_string : Text → Text
c_string [] = []
c_string (x ∷ xs) = let rest = c_string xs in if x == 0 then [] else x ∷ rest

-- A str that cannot be encoded is checked for here: cfl_PyUnistr_AsUTF8 has raised.
unfoldable pub header_value : Env → Object → M (Option Text)
header_value env none_object = pure none
header_value env (bytes b) = pure (some b)
header_value env (str s) = elim (env.utf8 s) [
  | none ↦ raise encode_error
  | some b ↦ pure (some (c_string b))
]
header_value env other =
    raise (type_error "expected header value to be None, binary, or unicode string")

abbrev pub add_failure : Env → Text → ℤ → Exception
add_failure env k err =
    kafka_failure env err
      (codes "Unable to add message header \"" ++ k ++ codes "\": " ++ env.err2str err)

abbrev pub add_header : Env → Text → Option Text → M Header
add_header env k v = do
  let err = env.header_add k v
  raise_if (not (eqb_ℤ err (pos 0))) (add_failure env k err)
  pure (k, v)

-- py_header_to_c; the key is str() of the object. A key that cannot be encoded is not checked for.
unfoldable pub header_to_c : Env → Object → Object → M Header
unfolding header_value
header_to_c env key value = elim (env.to_str key) [
  | none ↦ raise (type_error "expected header key to be unicode string")
  | some t ↦ as_utf8 env t >>= λ k. header_value env value >>= add_header env (c_string k)
]

-- The loop of py_headers_list_to_c.
unfoldable pub add_list : Env → Objects → M (List Header)
unfolding header_to_c
add_list env nil = pure []
add_list env (cons (tuple (cons k (cons v nil))) os) =
    header_to_c env k v >>= λ h. add_list env os >>= λ hs. pure (h ∷ hs)
add_list env (cons other os) =
    raise (type_error "Headers are expected to be a list of (key, value) tuples")

-- The loop of py_headers_dict_to_c.
unfoldable pub add_dict : Env → Entries → M (List Header)
unfolding header_to_c
add_dict env end = pure []
add_dict env (entry k v es) = header_to_c env k v >>= λ h. add_dict env es >>= λ hs. pure (h ∷ hs)

-- New headers that stay owned on success, and are destroyed again on an error.
abbrev pub new_headers : M (List Header) → M (List Header)
new_headers add w =
    let (r, w') = add (record w { headers = suc w.headers }) in
    elim r [
      | ok hs ↦ (ok hs, w')
      | null ↦ (destroy_headers >> return_null) w'
      | fault ↦ (fault, w')
    ]

unfoldable pub headers_to_c : Env → Object → M (List Header)
unfolding add_list add_dict
headers_to_c env (list os) = new_headers (add_list env os)
headers_to_c env (dict es) = new_headers (add_dict env es)
headers_to_c env other =
    raise (type_error "expected headers to be dict or list of (key, value) tuples")

-- One tuple of c_headers_to_py.
abbrev pub header_object : Text → Option Text → Object
header_object s v =
    tuple (cons (str s) (cons (elim v [ none ↦ none_object | some b ↦ bytes b ]) nil))

-- The loop of c_headers_to_py; `none` if a tuple got a NULL for a key that is not UTF-8, which is not
-- checked for.
unfoldable pub header_objects : Env → List Header → Option Objects
header_objects env [] = some nil
header_objects env ((k, v) ∷ hs) =
    let rest = header_objects env hs in
    elim (env.from_utf8 k) [ none ↦ none | some s ↦ Option.map (cons (header_object s v)) rest ]

unfoldable pub c_headers_to_py : Env → List Header → Option Object
unfolding header_objects
c_headers_to_py env hs = Option.map list (header_objects env hs)

-- ===== src/Message/Trip.antt =====
-- The headers of a consumed message, handed to produce().
use confluent_kafka_python.Base.{suc, ◌≡◌, refl, ◌∙◌, ap, Option, none, some, List, [], ◌∷◌, not}
use confluent_kafka_python.Base.Int.{ℤ, pos, eqb_ℤ}
use confluent_kafka_python.Base.Text.{Text}
use confluent_kafka_python.Object.{
  Object, Objects, nil, cons, list, none_object, bytes, str, type_error,
}
use mathlib.Core.Option
use confluent_kafka_python.World.{
  World, Env, M, CMessage, ClientType, Result, ok, null, fault, pure, raise, raise_if, return_null,
  destroy_headers, as_utf8, crash_process, ◌>>=◌, ◌>>◌,
}
use confluent_kafka_python.World.Quiet.{bind}
use confluent_kafka_python.Headers.{
  Header, c_string, header_value, header_to_c, add_failure, add_header, add_list, headers_to_c,
  header_object, header_objects, c_headers_to_py,
}
use confluent_kafka_python.Message.{Message, new0, with_headers}
use confluent_kafka_python.Message.Access.{headers}

-- A key that is UTF-8 without a NUL byte, whose text str() and the encoder give back.
abbrev pub IsKey : Env → Text → Type 0
IsKey env k =
    (s : Text) × (env.from_utf8 k ≡ some s)
    × (env.to_str (str s) ≡ some s)
    × (env.utf8 s ≡ some k)
    × (c_string k ≡ k)

abbrev pub AreKeys : Env → List Header → Type 0
AreKeys env [] = Unit {0}
AreKeys env ((k, v) ∷ hs) = IsKey env k × AreKeys env hs

abbrev value_object : Option Text → Object
value_object v = elim v [ none ↦ none_object | some b ↦ bytes b ]

header_to_c_lem :
    (env : Env) (k s : Text) (v : Option Text) (w : World)
    → ((k : Text) (v : Option Text) → env.header_add k v ≡ pos 0)
    → env.to_str (str s) ≡ some s
    → env.utf8 s ≡ some k
    → c_string k ≡ k
    → header_to_c env (str s) (value_object v) w ≡ (ok (k, v), w)
unfolding header_to_c header_value
header_to_c_lem env k s v w a t u e =
    ap (λ (o : Option Text). texted o w) t
    ∙ (ap (λ (o : Option Text). encoded o w) u
        ∙ (by_value v ∙ (ap (λ c. add_header env c v w) e ∙ ap added (a k v))))
  where
    encoded : Option Text → M Header
    encoded o = elim o [ none ↦ crash_process | some b ↦ pure b ] >>= λ k.
        header_value env (value_object v) >>= add_header env (c_string k)

    texted : Option Text → M Header
    texted o = elim o [
      | none ↦ raise (type_error "expected header key to be unicode string")
      | some t ↦
          as_utf8 env t >>= λ k. header_value env (value_object v) >>= add_header env (c_string k)
    ]

    by_value :
        (v : Option Text)
        → (header_value env (value_object v) >>= add_header env (c_string k)) w
          ≡ add_header env (c_string k) v w
    by_value none = refl
    by_value (some b) = refl

    added : ℤ → Result Header × World
    added err = (raise_if (not (eqb_ℤ err (pos 0))) (add_failure env k err) >> pure (k, v)) w

-- The tuples of the headers, which are converted back to them.
objects_lem :
    (env : Env) (hs : List Header)
    → ((k : Text) (v : Option Text) → env.header_add k v ≡ pos 0)
    → AreKeys env hs
    → (os : Objects) × (header_objects env hs ≡ some os)
      × ((w : World) → add_list env os w ≡ (ok hs, w))
unfolding add_list header_objects
objects_lem env [] a t = (nil, refl, λ w. refl)
objects_lem env ((k, v) ∷ hs) a ((s, f, t, u, e), ts) =
    let (os, p, q) = objects_lem env hs a ts in
    (
      cons (header_object s v) os,
      ap decoded f ∙ ap (λ (o : Option Objects). Option.map (cons (header_object s v)) o) p,
      λ w.
          ap (λ (r : Result Header × World). bind r (λ h. add_list env os >>= λ hs. pure (h ∷ hs)))
            (header_to_c_lem env k s v w a t u e)
          ∙ ap (λ (r : Result (List Header) × World). bind r (λ hs. pure ((k, v) ∷ hs))) (q w),
    )
  where
    decoded : Option Text → Option Objects
    decoded o = elim o [
      | none ↦ none
      | some s ↦ Option.map (cons (header_object s v)) (header_objects env hs)
    ]

-- The headers of a consumed message: its headers() gives them as an object that is converted back to
-- the same headers, in their order, which are owned by the caller, where librdkafka accepts each header, and
-- each key is UTF-8 without a NUL byte, which str() and the encoder give back of its text.
pub headers_to_c-headers :
    (env : Env) (type : ClientType) (rkm : CMessage) (hs : List Header) (w : World)
    → ((k : Text) (v : Option Text) → env.header_add k v ≡ pos 0)
    → AreKeys env hs
    → rkm.headers ≡ some hs
    → (o : Object) × ((headers env (with_headers (new0 env.err2str type rkm) rkm)).0 ≡ ok o)
      × (headers_to_c env o w ≡ (ok hs, record w { headers = suc w.headers }))
unfolding headers_to_c headers with_headers new0 c_headers_to_py
headers_to_c-headers env type rkm hs w a t e =
    let (os, p, q) = objects_lem env hs a t in
    (
      list os,
      ap (λ (o : Option (List Header)). (given o).0) e
          ∙ ap (λ (o : Option Objects). (listed (Option.map list o)).0) p,
      ap after (q (record w { headers = suc w.headers })),
    )
  where
    consumed : Message
    consumed = with_headers (new0 env.err2str type rkm) rkm

    listed : Option Object → Result Object × Message
    listed o = elim o [
      | none ↦ (fault, record consumed { c_headers = none })
      | some o ↦ (ok o, record consumed { headers = some o; c_headers = none })
    ]

    given : Option (List Header) → Result Object × Message
    given o = elim o [
      | none ↦ (ok none_object, consumed)
      | some hs ↦ listed (c_headers_to_py env hs)
    ]

    after : Result (List Header) × World → Result (List Header) × World
    after r = elim r.0 [
      | ok hs ↦ (ok hs, r.1)
      | null ↦ (destroy_headers >> return_null) r.1
      | fault ↦ (fault, r.1)
    ]

-- ===== src/KafkaError/Compare.antt =====
-- The methods of a KafkaError object, its hash and its comparison, of
-- confluent_kafka/src/confluent_kafka.c. PyLong_AsLong is the parameter `as_long`; its `none` is the
-- return of -1 with an exception set.
use confluent_kafka_python.Base.{
  ◌≡◌, refl, ◌↔◌, Bool, true, false, not, ◌||◌, Option, none, some, arith,
}
use confluent_kafka_python.Base.Int.{ℤ, pos, negsuc, ltb_ℤ, eqb_ℤ, eqb_ℤ_iff}
use confluent_kafka_python.Base.Text.{Text}
use confluent_kafka_python.Base.Words.{wrap_int}
use confluent_kafka_python.Object.{KafkaError, Object, int, bool, kafka_error}
use confluent_kafka_python.KafkaError.{Op, lt, le, eq, ne, gt, ge, str}

-- KafkaError_code, _str, _name, _fatal, _retriable and _txn_requires_abort; `err2name` is
-- rd_kafka_err2name.
unfoldable pub code : KafkaError → Object
code e = int e.code

unfoldable pub text : (ℤ → Text) → KafkaError → Object
unfolding str
text err2str e = Object.str (str err2str e)

unfoldable pub name : (ℤ → Text) → KafkaError → Object
name err2name e = Object.str (err2name e.code)

unfoldable pub fatal : KafkaError → Object
fatal e = bool e.fatal

unfoldable pub retriable : KafkaError → Object
retriable e = bool e.retriable

unfoldable pub txn_requires_abort : KafkaError → Object
txn_requires_abort e = bool e.txn_requires_abort

-- KafkaError_hash
unfoldable pub hash : KafkaError → ℤ
hash e = e.code

-- cfl_PyInt_AsInt, and whether it left an exception.
unfoldable pub as_int : (Object → Option ℤ) → Object → ℤ × Bool
unfolding wrap_int
as_int as_long o = elim (as_long o) [ some z ↦ (wrap_int z, false) | none ↦ (negsuc 0, true) ]

unfoldable pub decide : ℤ → ℤ → Op → Bool
decide a b lt = ltb_ℤ a b
decide a b le = not (ltb_ℤ b a)
decide a b eq = eqb_ℤ a b
decide a b ne = not (eqb_ℤ a b)
decide a b gt = ltb_ℤ b a
decide a b ge = not (ltb_ℤ a b)

-- The result, and whether an exception is set with it.
unfoldable pub richcompare : (Object → Option ℤ) → KafkaError → Object → Op → Bool × Bool
unfolding as_int decide
richcompare as_long e (kafka_error e2) op = (decide e.code e2.code op, false)
richcompare as_long e o op = let (c, raised) = as_int as_long o in (decide e.code c op, raised)

ltb_ℤ_total : (a b : ℤ) → (not (ltb_ℤ b a)) ≡ (ltb_ℤ a b || eqb_ℤ a b)
ltb_ℤ_total (pos a) (pos b) = ground arith
ltb_ℤ_total (pos a) (negsuc b) = ground arith
ltb_ℤ_total (negsuc a) (pos b) = ground arith
ltb_ℤ_total (negsuc a) (negsuc b) = ground arith

ltb_ℤ_flip : (a b : ℤ) → (not (ltb_ℤ a b)) ≡ (ltb_ℤ b a || eqb_ℤ a b)
ltb_ℤ_flip (pos a) (pos b) = ground arith
ltb_ℤ_flip (pos a) (negsuc b) = ground arith
ltb_ℤ_flip (negsuc a) (pos b) = ground arith
ltb_ℤ_flip (negsuc a) (negsuc b) = ground arith

-- The answers of the six operators, as a function.
abbrev pub answers : (Object → Option ℤ) → KafkaError → Object → Op → Bool
answers as_long e o op = (richcompare as_long e o op).0

-- Between two KafkaErrors == is true exactly if their hashes are equal; <= is < or ==, >= is > or ==,
-- and != the contrary of ==; a > b is b < a; and no exception is set.
pub richcompare_lem :
    (as_long : Object → Option ℤ) (a b : KafkaError) (op : Op)
    → let ab : Op → Bool = answers as_long a (kafka_error b) in
      let ba : Op → Bool = answers as_long b (kafka_error a) in
      ((ab eq ≡ true) ↔ (hash a ≡ hash b))
      × (ab le ≡ (ab lt || ab eq))
      × (ab ge ≡ (ab gt || ab eq))
      × (ab ne ≡ not (ab eq))
      × (ab gt ≡ ba lt)
      × ((richcompare as_long a (kafka_error b) op).1 ≡ false)
unfolding richcompare hash
richcompare_lem as_long a b op =
    (eqb_ℤ_iff a.code b.code, ltb_ℤ_total a.code b.code, ltb_ℤ_flip a.code b.code, refl, refl, refl)

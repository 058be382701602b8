-- ===== src/World/Monad.antt =====
-- The state and the actions over it.
use confluent_kafka_python.Base.{
  ℕ, zero, suc, ◌+◌, ◌≡◌, sym, subst, Bool, true, false, Option, none, some, List, ◌∷◌,
}
use confluent_kafka_python.Base.Int.{ℤ}
use confluent_kafka_python.Base.Text.{Text}
use confluent_kafka_python.Object.{Object, Exception, application, kafka_exception}
use confluent_kafka_python.KafkaError.{new0}
use confluent_kafka_python.World.Library.{RdCall, Env}

pub data ClientType : Type 0 where
  producer consumer admin : ClientType

-- What a future was told.
pub data Outcome : Type 0 where
  result : Object → Outcome
  exception : Exception → Outcome

-- The other C objects that the extension owns: rd_kafka_conf_t, rd_kafka_AdminOptions_t, the objects
-- of Admin requests, references to the background queue, rd_kafka_topic_t, rd_kafka_metadata_t and
-- copies of C strings; the futures that it holds a reference of, each by its number, and what it
-- told futures, the latest first.
pub record Held : Type 0 where
  pub confs : ℕ
  pub options : ℕ
  pub objects : ℕ
  pub queues : ℕ
  pub topics : ℕ
  pub metadata : ℕ
  pub strings : ℕ
  pub futures : List ℕ
  pub settled : List (ℕ × Outcome)

-- `rk` and `rkqu` tell whether the pointers are set. `tls` tells whether the thread's CallState is
-- registered, `saved` whether its `thread_state` is set; `gil` whether this thread holds Python's
-- lock. `calls` are the calls made of librdkafka, the latest first. `lists`, `messages`,
-- `lib_errors`, `metadatas` and `headers` count the rd_kafka_topic_partition_list_t,
-- rd_kafka_message_t, rd_kafka_error_t, rd_kafka_consumer_group_metadata_t and rd_kafka_headers_t
-- that the extension owns, and `msgstates` holds the live Producer_msgstate, each by its number.
pub record World : Type 0 where
  pub client_type : ClientType
  pub rk : Bool
  pub rkqu : Bool
  pub error_cb : Option Object
  pub throttle_cb : Option Object
  pub stats_cb : Option Object
  pub logger : Option Object
  pub default_dr_cb : Option Object
  pub dr_only_error : Bool
  pub rebalance_assigned : ℕ
  pub on_assign : Option Object
  pub on_revoke : Option Object
  pub on_commit : Option Object
  pub gil : Bool
  pub tls : Bool
  pub saved : Bool
  pub crashed : ℕ
  pub error : Option Exception
  pub calls : List RdCall
  pub lists : ℕ
  pub messages : ℕ
  pub lib_errors : ℕ
  pub metadatas : ℕ
  pub headers : ℕ
  pub msgstates : List (ℕ × Option Object)
  pub next_msgstate : ℕ
  pub held : Held

-- `null` is the return of NULL, or of another value that says that an exception is set. `fault` is
-- a failed assertion, a NULL dereference or another end of the process.
pub data Result (A : Type 0) : Type 0 where
  ok : A → Result A
  null : Result A
  fault : Result A

abbrev pub M : Type 0 → Type 0
M A = World → Result A × World

module _ {A : Type 0} where
  abbrev pub pure : A → M A
  pure a w = (ok a, w)

  abbrev pub return_null : M A
  return_null w = (null, w)

  abbrev pub crash_process : M A
  crash_process w = (fault, w)

  -- PyErr_SetString and its relatives, then `return NULL`.
  abbrev pub raise : Exception → M A
  raise e w = (null, record w { error = some e })

  abbrev pub gets : (World → A) → M A
  gets f w = (ok (f w), w)

infixl 5 ◌>>=◌ ◌>>◌
abbrev pub ◌>>=◌ : {A B : Type 0} → M A → (A → M B) → M B
◌>>=◌ m f w =
    let (r, w') = m w in elim r [ ok a ↦ f a w' | null ↦ (null, w') | fault ↦ (fault, w') ]

abbrev pub ◌>>◌ : {A B : Type 0} → M A → M B → M B
m >> k = m >>= λ _. k

abbrev pub modify : (World → World) → M (Unit {0})
modify f w = (ok tt, f w)

abbrev pub set_error : Exception → M (Unit {0})
set_error e w = (ok tt, record w { error = some e })

abbrev pub raise_if : Bool → Exception → M (Unit {0})
raise_if true e = raise e
raise_if false e = pure tt

abbrev pub assert_that : Bool → M (Unit {0})
assert_that true = pure tt
assert_that false = crash_process

-- cfl_PyUnistr_AsUTF8 where the caller does not check for NULL: it hands the NULL to strcmp or to a
-- function of librdkafka that takes a C string, which ends the process.
abbrev pub as_utf8 : Env → Text → M Text
as_utf8 env t = elim (env.utf8 t) [ none ↦ crash_process | some b ↦ pure b ]

-- Every text that the application uses can be encoded.
abbrev pub Encodes : Env → Type 0
Encodes env = (t : Text) → (b : Text) × (env.utf8 t ≡ some b)

pub as_utf8_lem :
    {B : Type 0} (P : M B → Type 0) (env : Env) (t : Text) (k : Text → M B)
    → Encodes env
    → ((b : Text) → P (k b))
    → P (as_utf8 env t >>= k)
as_utf8_lem {B} P env t k n h = let (b, e) = n t in subst (λ o. P (encoded o >>= k)) (sym e) (h b)
  where
    encoded : Option Text → M Text
    encoded o = elim o [ none ↦ crash_process | some b ↦ pure b ]

abbrev pub when : Bool → M (Unit {0}) → M (Unit {0})
when b m = elim b [ true ↦ m | false ↦ pure tt ]

-- A result of PyArg_ParseTupleAndKeywords, which is Python's.
pub data Parsed (A : Type 0) : Type 0 where
  parsed : A → Parsed A
  rejected : ℕ → Parsed A

abbrev pub parse : {A : Type 0} → Parsed A → M A
parse (parsed a) = pure a
parse (rejected n) = raise (application n)

-- PyEval_SaveThread ends the process unless the lock is held, and PyEval_RestoreThread waits
-- forever for a lock that its thread holds.
abbrev pub save_thread : M (Unit {0})
save_thread w = elim w.gil [ true ↦ (ok tt, record w { gil = false }) | false ↦ (fault, w) ]

abbrev pub restore_thread : M (Unit {0})
restore_thread w = elim w.gil [ true ↦ (fault, w) | false ↦ (ok tt, record w { gil = true }) ]

-- rd_kafka_topic_partition_list_new and _destroy; to free what is not owned is a double free.
abbrev pub new_list : M (Unit {0})
new_list w = (ok tt, record w { lists = suc w.lists })

abbrev pub destroy_list : M (Unit {0})
destroy_list w = elim w.lists [ zero ↦ (fault, w) | suc n ↦ (ok tt, record w { lists = n }) ]

abbrev pub own_messages : ℕ → M (Unit {0})
own_messages n w = (ok tt, record w { messages = w.messages + n })

abbrev pub destroy_message : M (Unit {0})
destroy_message w = elim w.messages [
  | zero ↦ (fault, w)
  | suc n ↦ (ok tt, record w { messages = n })
]

abbrev pub own_lib_error : M (Unit {0})
own_lib_error w = (ok tt, record w { lib_errors = suc w.lib_errors })

abbrev pub destroy_lib_error : M (Unit {0})
destroy_lib_error w = elim w.lib_errors [
  | zero ↦ (fault, w)
  | suc n ↦ (ok tt, record w { lib_errors = n })
]

abbrev pub own_metadata : M (Unit {0})
own_metadata w = (ok tt, record w { metadatas = suc w.metadatas })

abbrev pub destroy_metadata : M (Unit {0})
destroy_metadata w = elim w.metadatas [
  | zero ↦ (fault, w)
  | suc n ↦ (ok tt, record w { metadatas = n })
]

abbrev pub own_headers : M (Unit {0})
own_headers w = (ok tt, record w { headers = suc w.headers })

abbrev pub destroy_headers : M (Unit {0})
destroy_headers w = elim w.headers [ zero ↦ (fault, w) | suc n ↦ (ok tt, record w { headers = n }) ]

-- A call through `rk`, which librdkafka dereferences.
abbrev pub call : RdCall → M (Unit {0})
call c w = elim w.rk [ true ↦ (ok tt, record w { calls = c ∷ w.calls }) | false ↦ (fault, w) ]

-- A call through the consumer's queue.
abbrev pub call_queue : RdCall → M (Unit {0})
call_queue c w = elim w.rkqu [
  | true ↦ (ok tt, record w { calls = c ∷ w.calls })
  | false ↦ (fault, w)
]

-- Py_BEGIN_ALLOW_THREADS and Py_END_ALLOW_THREADS around a call.
abbrev pub allow_threads : {A : Type 0} → M A → M A
allow_threads m = do save_thread; a ← m; restore_thread; pure a

module _ (env : Env) where
  -- A call that returns an error code, computed from the calls before it.
  abbrev pub call_code : RdCall → M ℤ
  call_code c w = elim w.rk [
    | true ↦ (ok (env.code w.calls c), record w { calls = c ∷ w.calls })
    | false ↦ (fault, w)
  ]

  -- cfl_PyErr_Format(err, "prefix%s", rd_kafka_err2str(err))
  abbrev pub kafka_failure : ℤ → Text → Exception
  kafka_failure err text = kafka_exception (new0 env.err2str err (some text))

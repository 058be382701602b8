-- ===== src/Admin/Request.antt =====
-- The requests of an AdminClient, confluent_kafka/src/Admin.c.
use confluent_kafka_python.Base.{
  ℕ, zero, suc, true, false, not, Option, none, some, List, [], ◌∷◌, if◌then◌else◌, ◌==◌, length,
}
use confluent_kafka_python.Base.Int.{ℤ, pos, negsuc, eqb_ℤ}
use confluent_kafka_python.Base.Text.{Text, codes}
use confluent_kafka_python.Object.{Object, none_object, int, value_error, type_error}
use confluent_kafka_python.World.{
  Env, RdCall, AdminApi, create_topics, delete_topics, create_partitions, describe_configs,
  alter_configs, CObject, M, ok, null, fault, Parsed, parse, pure, raise, raise_if, return_null,
  gets, when, call, ◌>>=◌, ◌>>◌,
}
use confluent_kafka_python.CallState
use confluent_kafka_python.Callbacks.{call_serving}
use confluent_kafka_python.Handle.{handle_clear, destroy_client}
use confluent_kafka_python.Attributes.{get_bool}
use confluent_kafka_python.AdminTypes.{NewTopic, NewPartitions}
use confluent_kafka_python.Admin.Options.{
  Options, options_to_c, destroy_options, destroy_objects, truncate,
}
use confluent_kafka_python.Admin.Build.{
  Item, Resource, Round, build_all, build_topic, build_deletion, build_partitions,
  build_description, build_alteration,
}

-- Py_INCREF and Py_DECREF of a future; to drop a reference that is not held ends the process.
abbrev pub hold_future : ℕ → M (Unit {0})
hold_future f w = (ok tt, record w { held = record w.held { futures = f ∷ w.held.futures } })

unfoldable pub drop_ref : ℕ → List ℕ → Option (List ℕ)
drop_ref f [] = none
drop_ref f (g ∷ gs) =
    let rest = drop_ref f gs in
    if f == g then some gs else elim rest [ none ↦ none | some hs ↦ some (g ∷ hs) ]

unfoldable pub drop_future : ℕ → M (Unit {0})
unfolding drop_ref
drop_future f w = elim (drop_ref f w.held.futures) [
  | none ↦ (fault, w)
  | some fs ↦ (ok tt, record w { held = record w.held { futures = fs } })
]

abbrev pub own_queue : M (Unit {0})
own_queue w = (ok tt, record w { held = record w.held { queues = suc w.held.queues } })

abbrev pub destroy_queue : M (Unit {0})
destroy_queue w = elim w.held.queues [
  | zero ↦ (fault, w)
  | suc n ↦ (ok tt, record w { held = record w.held { queues = n } })
]

-- From rd_kafka_queue_get_background on: the result of CallState_end is not looked at.
unfoldable pub submit : Env → RdCall → ℕ → M Object
unfolding CallState.begin CallState.finish
submit env c n = do
  own_queue
  CallState.begin
  call c
  CallState.finish env
  destroy_objects n
  destroy_options
  destroy_queue
  pure none_object

-- The label `err`.
unfoldable pub abandon : ℕ → ℕ → M Object
unfolding drop_future
abandon i future = do destroy_objects i; destroy_options; drop_future future; return_null

-- What follows the loop, by its result.
abbrev pub after_loop : Env → AdminApi → CObject → ℕ → Option (List CObject) × ℕ → M Object
after_loop env api options future (none, i) = abandon i future
after_loop env api options future (some cs, i) =
    submit env (RdCall.admin api cs options future) (length cs)

-- The list of a request, `none` where the argument is no list.
abbrev pub non_empty : {A : Type 0} → Option (List (Item A)) → M (List (Item A))
non_empty none = raise (value_error "Expected non-empty list")
non_empty (some []) = raise (value_error "Expected non-empty list")
non_empty (some (x ∷ xs)) = pure (x ∷ xs)

-- From Admin_options_to_c on.
unfoldable pub perform :
    {A : Type 0} → Env → AdminApi → Options → ℕ → (A → M Round) → List (Item A) → M Object
unfolding options_to_c build_all submit abandon
perform env api options future make xs = do
  c_options ← options_to_c env api options
  hold_future future
  r ← build_all make 0 xs
  after_loop env api c_options future r

-- `validate_only` where it is given.
abbrev pub with_validation : Option Object → Options → M Options
with_validation none o = pure o
with_validation (some v) o =
    get_bool v >>= λ b. pure (record o { validate_only = if b then pos 1 else pos 0 })

-- The arguments of a request: the list, the future, `validate_only`, and the numeric options.
pub record Arguments (A : Type 0) : Type 0 where
  pub items : Option (List (Item A))
  pub future : ℕ
  pub validate_only : Option Object
  pub options : Options

unfoldable pub create_topics_request : Env → Parsed (Arguments NewTopic) → M Object
unfolding perform build_topic get_bool
create_topics_request env args = do
  a ← parse args
  xs ← non_empty a.items
  o ← with_validation a.validate_only a.options
  perform env create_topics o a.future (build_topic env) xs

unfoldable pub delete_topics_request : Env → Parsed (Arguments Object) → M Object
unfolding perform build_deletion
delete_topics_request env args = do
  a ← parse args
  xs ← non_empty a.items
  perform env delete_topics a.options a.future (build_deletion env) xs

unfoldable pub create_partitions_request : Env → Parsed (Arguments NewPartitions) → M Object
unfolding perform build_partitions get_bool
create_partitions_request env args = do
  a ← parse args
  xs ← non_empty a.items
  o ← with_validation a.validate_only a.options
  perform env create_partitions o a.future (build_partitions env) xs

-- cfl_PyObject_lookup, which dereferences the module that a failed import does not give.
unfoldable pub lookup : Env → Text → M (Unit {0})
lookup env name = elim (env.imports (codes "confluent_kafka.admin")) [
  | false ↦ λ w. (fault, w)
  | true ↦ raise_if (not (env.has_class name)) (type_error "No such class/type/object")
]

-- The look-up of ConfigResource, on whose failure the options are destroyed.
abbrev pub lookup_or_free : Env → M (Unit {0})
lookup_or_free env w =
    let (r, w') = lookup env (codes "ConfigResource") w in
    elim r [ ok a ↦ (ok a, w') | null ↦ (destroy_options >> return_null) w' | fault ↦ (fault, w') ]

-- From Admin_options_to_c on, in the two requests on configurations.
unfoldable pub perform_configs :
    Env → AdminApi → Options → ℕ → (Resource → M Round) → List (Item Resource) → M Object
unfolding options_to_c build_all submit abandon lookup
perform_configs env api options future make xs = do
  c_options ← options_to_c env api options
  lookup_or_free env
  hold_future future
  r ← build_all make 0 xs
  after_loop env api c_options future r

unfoldable pub describe_configs_request : Env → Parsed (Arguments Resource) → M Object
unfolding perform_configs build_description
describe_configs_request env args = do
  a ← parse args
  xs ← non_empty a.items
  perform_configs env describe_configs a.options a.future (build_description env) xs

unfoldable pub alter_configs_request : Env → Parsed (Arguments Resource) → M Object
unfolding perform_configs build_alteration get_bool
alter_configs_request env args = do
  a ← parse args
  xs ← non_empty a.items
  o ← with_validation a.validate_only a.options
  perform_configs env alter_configs o a.future (build_alteration env) xs

-- Admin_poll0, and Admin_poll on the timeout in microseconds, which it cuts to milliseconds.
unfoldable pub poll0 : Env → ℤ → M ℤ
unfolding CallState.begin CallState.finish
poll0 env timeout = do
  CallState.begin
  r ← gets (λ w. env.code w.calls (RdCall.poll timeout))
  call_serving env (RdCall.poll timeout)
  fine ← CallState.finish env
  pure (if fine then r else negsuc 0)

unfoldable pub poll : Env → Parsed ℤ → M Object
unfolding poll0
poll env args = do
  timeout ← parse args
  r ← poll0 env (truncate 1000 timeout)
  elim (eqb_ℤ r (negsuc 0)) [ true ↦ return_null | false ↦ pure (int r) ]

-- Admin_clear and Admin_dealloc
unfoldable pub clear : M (Unit {0})
unfolding handle_clear
clear = handle_clear

unfoldable pub dealloc : Env → M (Unit {0})
unfolding handle_clear CallState.begin CallState.finish
dealloc env = do when (← gets (λ w. w.rk)) (destroy_client env); handle_clear

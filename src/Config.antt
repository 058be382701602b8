-- ===== src/Config.antt =====
-- The configuration of a client: common_conf_setup of confluent_kafka/src/confluent_kafka.c and what
-- it calls. The configuration is passed on as a value, and counted while it has to be freed.
pub mod Steps
pub mod Setup
pub mod Freed
use confluent_kafka_python.Base.{
  ℕ, zero, suc, Bool, true, false, not, ◌&&◌, Option, none, some, List, [], ◌∷◌, ◌++◌, take, ◌⊎◌,
  inl, inr, if◌then◌else◌,
}
use confluent_kafka_python.Base.Int.{ℤ, pos, negsuc}
use confluent_kafka_python.Base.Text.{Text, codes, Sign, same, strcmp}
use confluent_kafka_python.Object.{
  Object, none_object, dict, Entries, end, entry, Exception, runtime_error, type_error, value_error,
  kafka_exception, application, encode_error,
}
use confluent_kafka_python.KafkaError.{new0}
use confluent_kafka_python.Headers.{c_string}
use confluent_kafka_python.World.{
  World, Env, Held, Conf, ClientType, producer, consumer, admin, Answer, gives, throws, M, Result,
  ok, null, fault, as_utf8, set_error, pure, raise, raise_if, return_null, gets, modify, ◌>>=◌,
  ◌>>◌,
}
use confluent_kafka_python.Attributes.{get_bool}
use confluent_kafka_python.Dict.{find_item, delete_text, update}

abbrev pub own_conf : M (Unit {0})
own_conf w = (ok tt, record w { held = record w.held { confs = suc w.held.confs } })

abbrev pub destroy_conf : M (Unit {0})
destroy_conf w = elim w.held.confs [
  | zero ↦ (fault, w)
  | suc n ↦ (ok tt, record w { held = record w.held { confs = n } })
]

-- rd_kafka_conf_new
abbrev pub empty_conf : Conf
empty_conf = record {
  settings = [];
  throttle = false;
  stats = false;
  log = false;
  delivery = false;
  rebalance = false;
  offset_commit = false;
  background = false;
}

abbrev pub invalid_arg : Env → Text → Exception
invalid_arg env text = kafka_exception (new0 env.err2str (negsuc 185) (some text))

-- rd_kafka_conf_set, with the exception for its error.
unfoldable pub set_conf : Env → Conf → Text → Option Text → M Conf
set_conf env c name value = elim (env.conf_set c.settings name value) [
  | none ↦ pure (record c { settings = (name, value) ∷ c.settings })
  | some errstr ↦ raise (invalid_arg env errstr)
]

-- rd_kafka_conf_set, its error ignored.
abbrev pub try_conf : Env → Conf → Text → Option Text → Conf
try_conf env c name value = elim (env.conf_set c.settings name value) [
  | none ↦ record c { settings = (name, value) ∷ c.settings }
  | some errstr ↦ c
]

-- common_conf_set_software
unfoldable pub set_software : Env → Conf → Conf
set_software env c =
    try_conf env
      (try_conf env c (codes "client.software.name") (some (codes "confluent-kafka-python")))
      (codes "client.software.version") (some (take 127 (codes "1.4.0-rdkafka-" ++ env.version)))

-- cfl_PyUnistr_AsUTF8 where a NULL is passed on as the value, behind the exception that it raised.
abbrev pub unchecked_text : Env → Text → M (Option Text)
unchecked_text env t = elim (env.utf8 t) [
  | none ↦ set_error encode_error >> pure none
  | some b ↦ pure (some (c_string b))
]

-- common_conf_set_special, on the text of the value.
unfoldable pub set_special : Env → Entries → Conf → Text → Object → M (Entries × Conf)
unfolding set_conf delete_text
set_special env es c name vo = elim (env.to_str vo) [
  | none ↦ raise (type_error "expected configuration property as type unicode string")
  | some t ↦
      unchecked_text env t >>= λ v. set_conf env c name v >>= λ c. pure (delete_text name es, c)
]

-- resolve_plugins, where Python calls confluent_kafka._resolve_plugins.
unfoldable pub resolve_plugins : Env → Object → M Object
resolve_plugins env plugins = do
  raise_if (not (env.imports (codes "confluent_kafka"))) (application 0)
  raise_if (not (env.has_class (codes "_resolve_plugins")))
      (runtime_error "confluent_kafka._resolve_plugins() not found")
  elim (env.resolve_plugins plugins) [
    | gives o ↦ pure o
    | throws n ↦ raise (runtime_error "confluent_kafka._resolve_plugins() failed")
  ]

abbrev pub is_name : Text → Text → Bool
is_name a b = elim (strcmp a b) [ same ↦ true | _ ↦ false ]

-- Py_None is stored as NULL.
abbrev pub callback_of : Object → Option Object
callback_of none_object = none
callback_of o = some o

-- The properties that the extension handles itself.
pub data Special : Type 0 where
  error_special throttle_special stats_special logger_special delivery_special only_error_special
        commit_special no_special :
      Special

abbrev pub common_special : Text → Special → Special
common_special k rest =
    if is_name k (codes "error_cb")
    then error_special
    else if is_name k (codes "throttle_cb")
    then throttle_special
    else if is_name k (codes "stats_cb")
    then stats_special
    else if is_name k (codes "logger")
    then logger_special
    else rest

-- The tests on the name, in the order of the code; an AdminClient has no properties of its own.
unfoldable pub special_of : ClientType → Text → Special
special_of producer k = common_special k (
    if is_name k (codes "on_delivery")
    then delivery_special
    else if is_name k (codes "delivery.report.only.error")
    then only_error_special
    else no_special)
special_of consumer k =
    common_special k (if is_name k (codes "on_commit") then commit_special else no_special)
special_of admin k = common_special k no_special

abbrev pub require_callable : Env → Object → Exception → M (Unit {0})
require_callable env vo e = raise_if (not (env.is_callable vo)) e

-- What follows PyCallable_Check in producer_conf_set_special and consumer_conf_set_special.
abbrev pub require_object : Env → Text → Object → M (Unit {0})
require_object env k vo =
    require_callable env vo (invalid_arg env (k ++ codes " requires a callable object"))

-- The value for librdkafka.
abbrev pub value_text : Env → Object → M (Option Text)
value_text env none_object = pure none
value_text env vo = elim (env.to_str vo) [
  | none ↦ raise (type_error "expected configuration property value as type unicode string")
  | some t ↦ unchecked_text env t
]

-- A round of the loop, by the kind of the property. The configuration is left as it is by all but
-- the last.
unfoldable pub set_property : Env → Special → Text → Object → Conf → M Conf
unfolding set_conf get_bool
set_property env error_special k vo c = do
  require_callable env vo (type_error "expected error_cb property as a callable function")
  modify (λ w. record w { error_cb = callback_of vo })
  pure c
set_property env throttle_special k vo c = do
  require_callable env vo (value_error "expected throttle_cb property as a callable function")
  modify (λ w. record w { throttle_cb = callback_of vo })
  pure c
set_property env stats_special k vo c = do
  require_callable env vo (type_error "expected stats_cb property as a callable function")
  modify (λ w. record w { stats_cb = callback_of vo })
  pure c
set_property env logger_special k vo c = do
  modify (λ w. record w { logger = callback_of vo })
  pure c
set_property env delivery_special k vo c = do
  require_object env k vo
  modify (λ w. record w { default_dr_cb = some vo })
  pure c
set_property env only_error_special k vo c = do
  b ← get_bool vo
  modify (λ w. record w { dr_only_error = b })
  pure c
set_property env commit_special k vo c = do
  require_object env k vo
  modify (λ w. record w { on_commit = some vo })
  pure c
set_property env no_special k vo c = do v ← value_text env vo; set_conf env c k v

-- The loop over the properties.
unfoldable pub set_properties : Env → ClientType → Entries → Conf → M Conf
unfolding set_property special_of
set_properties env type end c = pure c
set_properties env type (entry ko vo es) c = elim (env.to_str ko) [
  | none ↦ raise (type_error "expected configuration property name as type unicode string")
  | some t ↦ as_utf8 env t >>= λ k.
      set_property env (special_of type (c_string k)) (c_string k) vo c >>= λ c.
      set_properties env type es c
]

-- The properties that have to be set first, where they are given.
abbrev pub set_debug : Env → Entries → Conf → M (Entries × Conf)
set_debug env es c = elim (find_item (codes "debug") es) [
  | none ↦ pure (es, c)
  | some vo ↦ set_special env es c (codes "debug") vo
]

abbrev pub set_plugins : Env → Entries → Conf → M (Entries × Conf)
set_plugins env es c = elim (find_item (codes "plugin.library.paths") es) [
  | none ↦ pure (es, c)
  | some vo ↦ resolve_plugins env vo >>= λ o. set_special env es c (codes "plugin.library.paths") o
]

abbrev pub default_topic : Text
default_topic = codes "default.topic.config"

abbrev pub add_topic_config : Env → Entries → M Entries
add_topic_config env es = elim (find_item default_topic es) [
  | none ↦ pure es
  | some vo ↦ elim (env.dict_of vo) [
    | inl n ↦ raise (application n)
    | inr ds ↦ pure (delete_text default_topic (update env es ds))
  ]
]

-- From `debug` to the end of the loop.
unfoldable pub configure : Env → ClientType → Entries → Conf → M Conf
unfolding find_item set_special resolve_plugins update delete_text set_properties
configure env type es c = set_debug env es c >>= λ p. set_plugins env p.0 p.1 >>= λ p.
    add_topic_config env p.0 >>= λ es. set_properties env type es p.1

-- The dict of the arguments; a tuple is given, and the keywords take precedence.
unfoldable pub config_dict : Env → List Object → Option Entries → M Entries
unfolding update
config_dict env [] none = raise (type_error "expected configuration dict")
config_dict env [] (some kwargs) = pure kwargs
config_dict env (dict es ∷ []) none = pure es
config_dict env (dict es ∷ []) (some kwargs) = pure (update env es kwargs)
config_dict env (o ∷ []) kwargs = raise (type_error "expected configuration dict")
config_dict env (o ∷ p ∷ os) kwargs = raise (type_error "expected tuple containing single dict")

abbrev pub is_consumer : ClientType → Bool
is_consumer consumer = true
is_consumer _ = false

abbrev pub is_given : {A : Type 0} → Option A → Bool
is_given none = false
is_given (some a) = true

-- The label `outer_err`, for an exception of `m`.
abbrev pub or_destroy : {A : Type 0} → M A → M A
or_destroy m w =
    let (r, w') = m w in
    elim r [ ok a ↦ (ok a, w') | null ↦ (destroy_conf >> return_null) w' | fault ↦ (fault, w') ]

-- From the end of the loop on.
abbrev pub with_callbacks : Env → World → Conf → Conf
with_callbacks env w c =
    if is_given w.logger
    then record (try_conf env
        (record c { throttle = is_given w.throttle_cb; stats = is_given w.stats_cb })
        (codes "log.queue") (some (codes "true"))) { log = true }
    else record c { throttle = is_given w.throttle_cb; stats = is_given w.stats_cb }

abbrev pub finish_conf : Env → Conf → M Conf
finish_conf env c = do
  d ← gets (λ w. with_callbacks env w c)
  raise_if (not env.tss_create) (runtime_error "Failed to initialize thread local storage")
  pure d

-- common_conf_setup
unfoldable pub common_conf_setup : Env → ClientType → List Object → Option Entries → M Conf
unfolding config_dict configure set_software
common_conf_setup env type args kwargs = do
  raise_if env.old_library
      (runtime_error "confluent-kafka-python requires librdkafka v1.4.0 or later")
  es ← config_dict env args kwargs
  raise_if (is_consumer type && not (is_given (find_item (codes "group.id") es)))
      (value_error "Failed to create consumer: group.id must be set")
  own_conf
  or_destroy (configure env type es (set_software env empty_conf) >>= finish_conf env)

-- ===== src/Admin/Event.antt =====
-- The results of Admin requests, confluent_kafka/src/Admin.c: Admin_background_event_cb, which
-- librdkafka's background thread calls, and the conversions of results to Python.
use confluent_kafka_python.Base.{
  ℕ, Bool, true, false, Option, none, some, List, [], ◌∷◌, if◌then◌else◌,
}
use confluent_kafka_python.Base.Int.{ℤ, negsuc}
use confluent_kafka_python.Base.Text.{Text, codes}
use confluent_kafka_python.Object.{
  Object, none_object, int, str, dict, Entries, end, entry, application,
}
use confluent_kafka_python.KafkaError.{new_or_none}
use confluent_kafka_python.Message.{error_object}
use confluent_kafka_python.World.{
  Env, gives, throws, Outcome, M, ok, pure, return_null, set_error, ◌>>=◌, ◌>>◌,
}
use confluent_kafka_python.Dict.{set_text}
use confluent_kafka_python.Admin.Request.{lookup}

-- rd_kafka_topic_result_t; `text` is none where librdkafka gives no string.
pub record TopicResult : Type 0 where
  pub name : Text
  pub err : ℤ
  pub text : Option Text

abbrev pub topic_error : (ℤ → Text) → TopicResult → Object
topic_error err2str r = error_object (new_or_none err2str r.err r.text)

-- The loop of Admin_c_topic_result_to_py
unfoldable pub add_topic_results : (ℤ → Text) → List TopicResult → Entries → Entries
unfolding set_text new_or_none error_object
add_topic_results err2str [] es = es
add_topic_results err2str (r ∷ rs) es =
    add_topic_results err2str rs (set_text r.name (topic_error err2str r) es)

unfoldable pub topic_result_to_py : (ℤ → Text) → List TopicResult → Object
unfolding add_topic_results
topic_result_to_py err2str rs = dict (add_topic_results err2str rs end)

-- rd_kafka_ConfigEntry_t, with the values that its accessors give.
mutual
  pub data CEntry : Type 0 where
    config_entry : Text → Option Text → ℤ → ℤ → ℤ → ℤ → ℤ → CEntries → CEntry

  pub data CEntries : Type 0 where
    no_entry : CEntries
    and_entry : CEntry → CEntries → CEntries

abbrev pub value_object : Option Text → Object
value_object none = none_object
value_object (some v) = str v

-- The keyword arguments of a ConfigEntry.
abbrev pub entry_kwargs : Text → Option Text → ℤ → ℤ → ℤ → ℤ → ℤ → Object → Entries
entry_kwargs name value source read_only default sensitive synonym synonyms =
    entry (str (codes "name")) (str name) (
      entry (str (codes "value")) (value_object value) (
        entry (str (codes "source")) (int source) (
          entry (str (codes "is_read_only")) (int read_only) (
            entry (str (codes "is_default")) (int default) (
              entry (str (codes "is_sensitive")) (int sensitive) (
                entry (str (codes "is_synonym")) (int synonym)
                  (entry (str (codes "synonyms")) synonyms end)))))))

-- A call of a Python class.
abbrev pub instantiate : Env → Text → Entries → M Object
instantiate env name kwargs = elim (env.construct name kwargs) [
  | gives o ↦ pure o
  | throws n ↦ set_error (application n) >> return_null
]

-- Admin_c_ConfigEntries_to_py, the dict being filled from `es` on.
unfoldable pub add_config_entries : Env → CEntries → Entries → M Entries
unfolding set_text
add_config_entries env no_entry es = pure es
add_config_entries env
      (and_entry (config_entry name value source ro default sensitive synonym syns) rest) es =
    add_config_entries env syns end >>= λ synonyms.
    instantiate env (codes "ConfigEntry")
      (entry_kwargs name value source ro default sensitive synonym (dict synonyms))
    >>= λ o. add_config_entries env rest (set_text name o es)

-- rd_kafka_ConfigResource_t, of a result.
pub record CResource : Type 0 where
  pub restype : ℤ
  pub name : Text
  pub err : ℤ
  pub text : Option Text
  pub configs : CEntries

abbrev pub resource_kwargs : Env → CResource → Object → Entries
resource_kwargs env r configs = entry (str (codes "restype")) (int r.restype) (
    entry (str (codes "name")) (str r.name) (
      entry (str (codes "described_configs")) configs
        (entry (str (codes "error")) (error_object (new_or_none env.err2str r.err r.text)) end)))

-- The loop of Admin_c_ConfigResource_result_to_py. The keys are new objects of a Python class,
-- whose hash and equality are Python's; the entries are kept in order.
unfoldable pub resource_entries : Env → Bool → List CResource → M Entries
unfolding add_config_entries new_or_none error_object
resource_entries env ret_configs [] = pure end
resource_entries env ret_configs (r ∷ rs) = do
  configs ← add_config_entries env r.configs end
  key ← instantiate env (codes "ConfigResource") (resource_kwargs env r (dict configs))
  rest ← resource_entries env ret_configs rs
  pure (entry key (if ret_configs then dict configs else none_object) rest)

unfoldable pub resource_result_to_py : Env → Bool → List CResource → M Object
unfolding resource_entries lookup
resource_result_to_py env ret_configs rs = do
  lookup env (codes "ConfigResource")
  lookup env (codes "ConfigEntry")
  es ← resource_entries env ret_configs rs
  pure (dict es)

-- rd_kafka_event_t, with its type.
pub data EventResult : Type 0 where
  topics_created topics_deleted partitions_created : List TopicResult → EventResult
  configs_described configs_altered : List CResource → EventResult
  other_event : EventResult

pub record AdminEvent : Type 0 where
  pub future : ℕ
  pub err : ℤ
  pub text : Text
  pub name : Text
  pub result : EventResult

-- future.set_result(…) and future.set_exception(…)
abbrev pub settle : ℕ → Outcome → M (Unit {0})
settle f x w = (ok tt, record w { held = record w.held { settled = (f, x) ∷ w.held.settled } })

abbrev pub err_unsupported : ℤ
err_unsupported = negsuc 164

-- The `switch` on the type of an event without an error; NULL behind an exception.
unfoldable pub convert : Env → EventResult → M Object
unfolding topic_result_to_py resource_result_to_py
convert env (topics_created rs) = pure (topic_result_to_py env.err2str rs)
convert env (topics_deleted rs) = pure (topic_result_to_py env.err2str rs)
convert env (partitions_created rs) = pure (topic_result_to_py env.err2str rs)
convert env (configs_described rs) = resource_result_to_py env true rs
convert env (configs_altered rs) = resource_result_to_py env false rs
convert env other_event = return_null

-- ===== src/Admin/Settled.antt =====
-- What Admin_background_event_cb does with the future of an event.
use confluent_kafka_python.Base.{
  ℕ, ◌≡◌, refl, sym, subst, Bool, true, false, not, Option, none, some, List, [], ◌∷◌, ◌++◌,
  if◌then◌else◌,
}
use confluent_kafka_python.Base.Text.{Text, codes}
use confluent_kafka_python.Object.{
  Object, KafkaError, dict, none_object, Entries, end, entry, Exception, kafka_exception,
  application, type_error,
}
use confluent_kafka_python.KafkaError.{new_or_none}
use confluent_kafka_python.World.{
  World, Env, Answer, gives, throws, Outcome, result, exception, M, Result, ok, null, fault, pure,
  raise_if, set_error, return_null, modify, save_thread, ◌>>=◌, ◌>>◌,
}
use confluent_kafka_python.World.Quiet.{bind, Quiet, IsQuiet, raise_if-IsQuiet, IsQuiet->>=}
use confluent_kafka_python.Admin.Request.{drop_ref, drop_future, lookup}
use confluent_kafka_python.Dict.{set_text}
use confluent_kafka_python.Admin.Event.{
  AdminEvent, EventResult, topics_created, topics_deleted, partitions_created, configs_described,
  configs_altered, other_event, CEntries, config_entry, no_entry, and_entry, CResource, convert,
  settle, topic_result_to_py, resource_result_to_py, resource_entries, add_config_entries,
  entry_kwargs, instantiate, resource_kwargs, err_unsupported,
}
use confluent_kafka_python.Admin.Background.{
  outcome, background_event_cb, converted_outcome, kafka_outcome, result_outcome,
}

instantiate-IsQuiet :
    (env : Env) (name : Text) (kwargs : Entries) → IsQuiet (instantiate env name kwargs)
instantiate-IsQuiet env name kwargs = made-IsQuiet (env.construct name kwargs)
  where
    made : Answer → M Object
    made a = elim a [ gives o ↦ pure o | throws n ↦ set_error (application n) >> return_null ]

    made-IsQuiet : (a : Answer) → IsQuiet (made a)
    made-IsQuiet (gives o) = λ w. (w.error, refl)
    made-IsQuiet (throws n) = λ w. (_, refl)

add_config_entries-IsQuiet :
    (env : Env) (cs : CEntries) (es : Entries) → IsQuiet (add_config_entries env cs es)
unfolding add_config_entries
add_config_entries-IsQuiet env no_entry es = λ w. (w.error, refl)
add_config_entries-IsQuiet env
      (and_entry (config_entry name value source ro default sensitive synonym syns) rest) es =
    IsQuiet->>= (add_config_entries env syns end) made (add_config_entries-IsQuiet env syns end)
      λ synonyms.
        IsQuiet->>= (instantiate env (codes "ConfigEntry") (kwargs synonyms))
          (λ o. add_config_entries env rest (set_text name o es))
          (instantiate-IsQuiet env (codes "ConfigEntry") (kwargs synonyms))
          (λ o. add_config_entries-IsQuiet env rest (set_text name o es))
  where
    kwargs : Entries → Entries
    kwargs synonyms = entry_kwargs name value source ro default sensitive synonym (dict synonyms)

    made : Entries → M Entries
    made synonyms = instantiate env (codes "ConfigEntry") (kwargs synonyms) >>= λ o.
        add_config_entries env rest (set_text name o es)

resource_entries-IsQuiet :
    (env : Env) (b : Bool) (rs : List CResource) → IsQuiet (resource_entries env b rs)
unfolding resource_entries
resource_entries-IsQuiet env b [] = λ w. (w.error, refl)
resource_entries-IsQuiet env b (r ∷ rs) =
    IsQuiet->>= (add_config_entries env r.configs end) keyed
      (add_config_entries-IsQuiet env r.configs end)
      λ configs.
        IsQuiet->>=
          (instantiate env (codes "ConfigResource") (resource_kwargs env r (dict configs)))
          (with_rest configs)
          (instantiate-IsQuiet env (codes "ConfigResource") (resource_kwargs env r (dict configs)))
          λ key.
            IsQuiet->>= (resource_entries env b rs) (λ rest. pure (entry key (value configs) rest))
              (resource_entries-IsQuiet env b rs) (λ rest. λ w. (w.error, refl))
  where
    value : Entries → Object
    value configs = if b then dict configs else none_object

    with_rest : Entries → Object → M Entries
    with_rest configs key =
        resource_entries env b rs >>= λ rest. pure (entry key (value configs) rest)

    keyed : Entries → M Entries
    keyed configs =
        instantiate env (codes "ConfigResource") (resource_kwargs env r (dict configs))
        >>= with_rest configs

pub lookup-IsQuiet :
    (env : Env) (name : Text)
    → env.imports (codes "confluent_kafka.admin") ≡ true
    → IsQuiet (lookup env name)
unfolding lookup
lookup-IsQuiet env name i = subst (λ b. IsQuiet (tested b)) (sym i) (raise_if-IsQuiet _ _)
  where
    tested : Bool → M (Unit {0})
    tested b = elim b [
      | false ↦ λ w. (fault, w)
      | true ↦ raise_if (not (env.has_class name)) (type_error "No such class/type/object")
    ]

resource_result_to_py-IsQuiet :
    (env : Env) (b : Bool) (rs : List CResource)
    → env.imports (codes "confluent_kafka.admin") ≡ true
    → IsQuiet (resource_result_to_py env b rs)
unfolding resource_result_to_py
resource_result_to_py-IsQuiet env b rs i =
    IsQuiet->>= (lookup env (codes "ConfigResource"))
      (λ _. lookup env (codes "ConfigEntry") >> entries)
      (lookup-IsQuiet env (codes "ConfigResource") i)
      λ _.
        IsQuiet->>= (lookup env (codes "ConfigEntry")) (λ _. entries)
          (lookup-IsQuiet env (codes "ConfigEntry") i)
          λ _.
            IsQuiet->>= (resource_entries env b rs) (λ es. pure (dict es))
              (resource_entries-IsQuiet env b rs) (λ es. λ w. (w.error, refl))
  where
    entries : M Object
    entries = resource_entries env b rs >>= λ es. pure (dict es)

-- The end of a conversion, as a future is told it.
abbrev pub Gives : Result Object × World → Outcome → Type 0
Gives (ok o, u) x = x ≡ result o
Gives (null, u) x = (e : Exception) × (u.error ≡ some e) × (x ≡ exception e)
Gives (fault, u) x = ⊥

-- What a future is told of an event: the error of the event, if it has one; else the results by topic,
-- or what the conversion of the resources gives, which has their settings for a description and
-- None for an alteration; of an unknown event, that it is unsupported. `w` is the state of the
-- conversion.
abbrev pub Tells : Env → World → AdminEvent → Option KafkaError → EventResult → Outcome → Type 0
Tells env w ev (some k) r x = x ≡ exception (kafka_exception k)
Tells env w ev none (topics_created rs) x = x ≡ result (topic_result_to_py env.err2str rs)
Tells env w ev none (topics_deleted rs) x = x ≡ result (topic_result_to_py env.err2str rs)
Tells env w ev none (partitions_created rs) x = x ≡ result (topic_result_to_py env.err2str rs)
Tells env w ev none (configs_described rs) x = Gives (resource_result_to_py env true rs w) x
Tells env w ev none (configs_altered rs) x = Gives (resource_result_to_py env false rs w) x
Tells env w ev none other_event x =
    x ≡ kafka_outcome env err_unsupported (codes "Unsupported event type " ++ ev.name)

-- An action that gives what `P` holds of and changes nothing but the error indicator.
abbrev Told : (Outcome → Type 0) → World → Result Outcome × World → Type 0
Told P w (ok x, u) = P x × ((y : Option Exception) × (u ≡ record w { error = y }))
Told P w (null, u) = ⊥
Told P w (fault, u) = ⊥

abbrev tried : {A : Type 0} → Result A × World → Result (Option A) × World
tried r = elim r.0 [ ok a ↦ (ok (some a), r.1) | null ↦ (ok none, r.1) | fault ↦ (fault, r.1) ]

settled-Told :
    (env : Env) (ev : AdminEvent) (w : World) (r : Result Object × World)
    → Quiet w r
    → Told (Gives r) w (bind (tried r) (converted_outcome env ev))
settled-Told env ev w (ok o, u) h = (refl, h)
settled-Told env ev w (null, u) (x, e) =
    subst (λ u. Told (Gives (null, u)) w (converted_outcome env ev none u)) (sym e)
      ((x, refl, refl), (none, refl))
settled-Told env ev w (fault, u) h = absurd h

converted-Told :
    (env : Env) (ev : AdminEvent) (r : EventResult) (w : World)
    → env.imports (codes "confluent_kafka.admin") ≡ true
    → Told (Tells env w ev none r) w (result_outcome env ev r w)
unfolding convert
converted-Told env ev (topics_created rs) w i = (refl, (w.error, refl))
converted-Told env ev (topics_deleted rs) w i = (refl, (w.error, refl))
converted-Told env ev (partitions_created rs) w i = (refl, (w.error, refl))
converted-Told env ev (configs_described rs) w i =
    settled-Told env ev w (resource_result_to_py env true rs w)
      (resource_result_to_py-IsQuiet env true rs i w)
converted-Told env ev (configs_altered rs) w i =
    settled-Told env ev w (resource_result_to_py env false rs w)
      (resource_result_to_py-IsQuiet env false rs i w)
converted-Told env ev other_event w i = (refl, (w.error, refl))

outcome-Told :
    (env : Env) (ev : AdminEvent) (w : World)
    → env.imports (codes "confluent_kafka.admin") ≡ true
    → Told
        (Tells env w ev (new_or_none env.err2str ev.err (some ev.text)) ev.result)
        w
        (outcome env ev w)
unfolding outcome
outcome-Told env ev w i = by_error (new_or_none env.err2str ev.err (some ev.text))
  where
    told : Option KafkaError → M Outcome
    told k = elim k [
      | some k ↦ pure (exception (kafka_exception k))
      | none ↦ result_outcome env ev ev.result
    ]

    by_error : (k : Option KafkaError) → Told (Tells env w ev k ev.result) w (told k w)
    by_error none = converted-Told env ev ev.result w i
    by_error (some k) = (refl, (w.error, refl))

-- Admin_background_event_cb on an event whose future is held, outside the lock, where
-- confluent_kafka.admin is imported: the future is settled exactly
-- once: with the error of the event; else with the results by topic, or with what the conversion of
-- the resources gives or raises, with their settings for a description and without for an
-- alteration; or, for an event of another type, with the exception that says so. Exactly that
-- reference of it is dropped, and the lock, the application's error indicator and all else are as
-- before.
pub background_event_cb-settles :
    (env : Env) (ev : AdminEvent) (fs : List ℕ) (w : World)
    → env.imports (codes "confluent_kafka.admin") ≡ true
    → drop_ref ev.future w.held.futures ≡ some fs
    → w.gil ≡ false
    → (x : Outcome) × Tells env
        (record w { gil = true; error = none })
        ev
        (new_or_none env.err2str ev.err (some ev.text))
        ev.result
        x
      × (background_event_cb env ev w ≡ (
        ok tt,
        record w {
          gil = false;
          held = record w.held { futures = fs; settled = (ev.future, x) ∷ w.held.settled };
        },
      ))
unfolding background_event_cb drop_future
background_event_cb-settles env ev fs w i d g =
    subst (λ b. Good (started b)) (sym g)
      (told (outcome env ev clean) (outcome-Told env ev clean i))
  where
    clean : World
    clean = record w { gil = true; error = none }

    Good : Result (Unit {0}) × World → Type 0
    Good r =
        (x : Outcome) × Tells env (record w { gil = true; error = none }) ev
          (new_or_none env.err2str ev.err (some ev.text)) ev.result x
        × (r ≡ (
          ok tt,
          record w {
            gil = false;
            held = record w.held { futures = fs; settled = (ev.future, x) ∷ w.held.settled };
          },
        ))

    dropped : Option (List ℕ) → M (Unit {0})
    dropped r w = elim r [
      | none ↦ (fault, w)
      | some fs ↦ (ok tt, record w { held = record w.held { futures = fs } })
    ]

    last : Option Exception → Outcome → M (Unit {0})
    last e x =
        settle ev.future x
        >> (drop_future ev.future >> (modify (λ u. record u { error = e }) >> save_thread))

    locked : Bool → Result (Unit {0}) × World
    locked b = elim b [ true ↦ (fault, w) | false ↦ (ok tt, record w { gil = true }) ]

    started : Bool → Result (Unit {0}) × World
    started b =
        bind (locked b) (λ _ u. bind (outcome env ev (record u { error = none })) (last u.error))

    told :
        (r : Result Outcome × World)
        → Told
            (Tells env
              (record w { gil = true; error = none })
              ev
              (new_or_none env.err2str ev.err (some ev.text))
              ev.result)
            clean
            r
        → Good (bind r (last w.error))
    told (ok x, u) (t, (y, e)) =
        subst (λ u. Good (last w.error x u)) (sym e)
          (
            x,
            t,
            subst
                (λ r.
                  bind
                    (dropped r (record clean {
                      error = y;
                      held = record w.held { settled = (ev.future, x) ∷ w.held.settled };
                    }))
                    (λ _. modify (λ u. record u { error = w.error }) >> save_thread)
                  ≡ (
                    ok tt,
                    record w {
                      gil = false;
                      held = record w.held {
                        futures = fs;
                        settled = (ev.future, x) ∷ w.held.settled;
                      };
                    },
                  ))
                (sym d) refl,
          )
    told (null, u) k = absurd k
    told (fault, u) k = absurd k

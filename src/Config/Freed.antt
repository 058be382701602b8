-- ===== src/Config/Freed.antt =====
-- The configuration that common_conf_setup makes: who owns it, and what it passes on.
use confluent_kafka_python.Base.{
  ℕ, suc, ◌≡◌, refl, sym, subst, ap, ◌⊎◌, inl, inr, Bool, true, false, not, ◌&&◌, Option, none,
  some, List, [], ◌∷◌, if◌then◌else◌,
}
use confluent_kafka_python.Base.Text.{codes}
use confluent_kafka_python.Object.{
  Object, dict, Entries, Exception, value_error, application, runtime_error,
}
use confluent_kafka_python.World.{
  World, Env, Held, Conf, ClientType, M, Result, ok, null, fault, pure, raise, raise_if,
  return_null, Encodes, ◌>>=◌, ◌>>◌,
}
use confluent_kafka_python.World.Quiet.{bind, Quiet, IsQuiet, raise_if-IsQuiet}
use confluent_kafka_python.Dict.{find_item, delete_text, update}
use confluent_kafka_python.Config.{
  empty_conf, set_software, resolve_plugins, set_special, set_properties, set_debug, set_plugins,
  try_conf, default_topic, add_topic_config, configure, config_dict, is_given, is_consumer,
  or_destroy, own_conf, destroy_conf, with_callbacks, finish_conf, common_conf_setup,
}
use confluent_kafka_python.Config.Steps.{
  Kept, Sets, IsSetting, Any, IsSetting->>=, option-IsSetting, raise_if-IsSetting, Passes,
  try_conf-Passes, software_names, set_software-Passes,
}
use confluent_kafka_python.Config.Setup.{
  set_properties-IsSetting, set_special-IsSetting, resolve_plugins-IsSetting, PassesPair,
}

set_debug-IsSetting :
    (env : Env) (type : ClientType) (es : Entries) (c : Conf)
    → Passes type c
    → IsSetting (PassesPair type) (set_debug env es c)
set_debug-IsSetting env type es c p =
    option-IsSetting (PassesPair type) (find_item (codes "debug") es) (pure (es, c))
      (set_special env es c (codes "debug")) (λ w. (p, refl))
      (λ vo. set_special-IsSetting env type es c (codes "debug") vo (software_names type).2 p)

set_plugins-IsSetting :
    (env : Env) (type : ClientType) (es : Entries) (c : Conf)
    → Passes type c
    → IsSetting (PassesPair type) (set_plugins env es c)
set_plugins-IsSetting env type es c p =
    option-IsSetting (PassesPair type) (find_item (codes "plugin.library.paths") es) (pure (es, c))
      (λ vo. resolve_plugins env vo >>= set_special env es c (codes "plugin.library.paths"))
      (λ w. (p, refl))
      λ vo.
        IsSetting->>= Any (PassesPair type) (resolve_plugins env vo)
          (set_special env es c (codes "plugin.library.paths")) (resolve_plugins-IsSetting env vo)
          (λ o _.
            set_special-IsSetting env type es c (codes "plugin.library.paths") o
              (software_names type).3 p)

add_topic_config-IsSetting : (env : Env) (es : Entries) → IsSetting Any (add_topic_config env es)
add_topic_config-IsSetting env es =
    option-IsSetting Any (find_item default_topic es) (pure es) (λ vo. added (env.dict_of vo))
      (λ w. (tt, refl)) (λ vo. added-IsSetting (env.dict_of vo))
  where
    added : ℕ ⊎ Entries → M Entries
    added d = elim d [
      | inl n ↦ raise (application n)
      | inr ds ↦ pure (delete_text default_topic (update env es ds))
    ]

    added-IsSetting : (d : ℕ ⊎ Entries) → IsSetting Any (added d)
    added-IsSetting (inl n) = λ w. ((_, refl), refl)
    added-IsSetting (inr ds) = λ w. (tt, refl)

configure-IsSetting :
    (env : Env) (type : ClientType) (es : Entries) (c : Conf)
    → Encodes env
    → Passes type c
    → IsSetting (Passes type) (configure env type es c)
unfolding configure
configure-IsSetting env type es c n p =
    IsSetting->>= (PassesPair type) (Passes type) (set_debug env es c)
      (λ p. set_plugins env p.0 p.1 >>= plugged) (set_debug-IsSetting env type es c p)
      λ (es, c) p.
        IsSetting->>= (PassesPair type) (Passes type) (set_plugins env es c) plugged
          (set_plugins-IsSetting env type es c p)
          λ (es, c) p.
            IsSetting->>= Any (Passes type) (add_topic_config env es)
              (λ es. set_properties env type es c) (add_topic_config-IsSetting env es)
              (λ es _. set_properties-IsSetting env type es c n p)
  where
    plugged : Entries × Conf → M Conf
    plugged p = add_topic_config env p.0 >>= λ es. set_properties env type es p.1

with_callbacks-Passes :
    (env : Env) (type : ClientType) (w : World) (c : Conf)
    → Passes type c
    → Passes type (with_callbacks env w c)
with_callbacks-Passes env type w c p = go (is_given w.logger)
  where
    d : Conf
    d = record c { throttle = is_given w.throttle_cb; stats = is_given w.stats_cb }

    go :
        (b : Bool)
        → Passes type (
            if b
            then record (try_conf env d (codes "log.queue") (some (codes "true"))) { log = true }
            else d)
    go true =
        try_conf-Passes env type d (codes "log.queue") (some (codes "true")) (software_names type).4
          p
    go false = p

finish_conf-IsSetting :
    (env : Env) (type : ClientType) (c : Conf)
    → Passes type c
    → IsSetting (Passes type) (finish_conf env c)
finish_conf-IsSetting env type c p w =
    IsSetting->>= Any (Passes type)
      (raise_if (not env.tss_create) (runtime_error "Failed to initialize thread local storage"))
      (λ _. pure (with_callbacks env w c)) (raise_if-IsSetting _ _)
      (λ _ _ u. (with_callbacks-Passes env type w c p, refl)) w

-- One configuration more.
abbrev pub one_conf : World → World
one_conf w = record w { held = record w.held { confs = suc w.held.confs } }

-- A configuration, owned by the caller, that passes on no name that the extension handles itself; or an
-- exception, with the configuration freed. All else is kept but the client's callbacks and settings.
abbrev pub Configures : ClientType → World → Result Conf × World → Type 0
Configures type w (ok c, u) = Passes type c × Kept (one_conf w) u
Configures type w (null, u) = ((e : Exception) × (u.error ≡ some e)) × Kept w u
Configures type w (fault, u) = ⊥

or_destroy-Configures :
    (type : ClientType) (m : M Conf) (w : World)
    → IsSetting (Passes type) m
    → Configures type w (or_destroy m (one_conf w))
or_destroy-Configures type m w h = go (m (one_conf w)) (h (one_conf w))
  where
    freed : Result Conf × World → Result Conf × World
    freed r = elim r.0 [
      | ok a ↦ (ok a, r.1)
      | null ↦ (destroy_conf >> return_null) r.1
      | fault ↦ (fault, r.1)
    ]

    drop : World → World
    drop u = record u { held = w.held }

    destroyed :
        (u : World)
        → Kept (one_conf w) u
        → ((destroy_conf >> return_null {A = Conf}) u ≡ (null, drop u)) × Kept w (drop u)
    destroyed u k = (
      subst
          (λ (h : Held).
            (destroy_conf >> return_null {A = Conf}) (record u { held = h }) ≡ (null, drop u))
          (sym (ap (λ (x : World). x.held) k)) refl,
      ap drop k,
    )

    go : (r : Result Conf × World) → Sets (Passes type) (one_conf w) r → Configures type w (freed r)
    go (ok c, u) k = k
    go (null, u) (e, k) =
        subst (λ r. Configures type w r) (sym (destroyed u k).0) (e, (destroyed u k).1)
    go (fault, u) k = k

-- common_conf_setup on any arguments, where every text can be encoded: it does not fault; it makes a configuration, which the caller
-- owns, and to which none of the properties that are for the extension (error_cb, throttle_cb, stats_cb,
-- logger, and on_commit of a Consumer, on_delivery and delivery.report.only.error of a Producer) was
-- passed on; or it raises, and the configuration is freed. The client's callbacks and settings apart, all else is kept.
pub common_conf_setup-Configures :
    (env : Env) (type : ClientType) (args : List Object) (kwargs : Option Entries) (w : World)
    → Encodes env
    → Configures type w (common_conf_setup env type args kwargs w)
unfolding common_conf_setup
common_conf_setup-Configures env type args kwargs w n =
    quietly (raise_if env.old_library _) (λ _. config_dict env args kwargs >>= checked) w
      (raise_if-IsQuiet _ _)
      λ _ v.
        quietly (config_dict env args kwargs) checked v (config_dict-IsQuiet args kwargs) λ es u.
          quietly (raise_if _ _) (λ _. made es) u (raise_if-IsQuiet _ _)
            (λ _ t. or_destroy-Configures type (setting es) t (setting-IsSetting es))
  where
    setting : Entries → M Conf
    setting es = configure env type es (set_software env empty_conf) >>= finish_conf env

    setting-IsSetting : (es : Entries) → IsSetting (Passes type) (setting es)
    setting-IsSetting es =
        IsSetting->>= (Passes type) (Passes type)
          (configure env type es (set_software env empty_conf)) (finish_conf env)
          (configure-IsSetting env type es (set_software env empty_conf) n
            (set_software-Passes env type))
          (λ c p. finish_conf-IsSetting env type c p)

    made : Entries → M Conf
    made es = own_conf >> or_destroy (setting es)

    checked : Entries → M Conf
    checked es =
        raise_if (is_consumer type && not (is_given (find_item (codes "group.id") es)))
          (value_error "Failed to create consumer: group.id must be set")
        >> made es

    quietly :
        {A : Type 0} (m : M A) (k : A → M Conf) (w : World)
        → IsQuiet m
        → ((a : A) (v : World) → Configures type v (k a v))
        → Configures type w ((m >>= k) w)
    quietly {A = A} m k w q h = go (m w) (q w)
      where
        again :
            (x : Option Exception) (r : Result Conf × World)
            → Configures type (record w { error = x }) r
            → Configures type w r
        again x (ok c, u) g = g
        again x (null, u) g = g
        again x (fault, u) g = g

        go : (r : Result A × World) → Quiet w r → Configures type w (bind r k)
        go (ok a, u) (x, e) =
            subst (λ v. Configures type w (k a v)) (sym e)
              (again x (k a (record w { error = x })) (h a (record w { error = x })))
        go (null, u) (x, e) = subst (λ v. Configures type w (null, v)) (sym e) ((x, refl), refl)
        go (fault, u) g = absurd g

    config_dict-IsQuiet :
        (args : List Object) (kwargs : Option Entries) → IsQuiet (config_dict env args kwargs)
    config_dict-IsQuiet [] none = λ w. (_, refl)
    config_dict-IsQuiet [] (some es) = λ w. (w.error, refl)
    config_dict-IsQuiet (dict es ∷ []) none = λ w. (w.error, refl)
    config_dict-IsQuiet (dict es ∷ []) (some k) = λ w. (w.error, refl)
    config_dict-IsQuiet (o ∷ []) k = λ w. (_, refl)
    config_dict-IsQuiet (o ∷ p ∷ os) k = λ w. (_, refl)

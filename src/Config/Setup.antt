-- ===== src/Config/Setup.antt =====
-- common_conf_setup on every path.
use confluent_kafka_python.Base.{◌≡◌, refl, not, Option, none, some}
use confluent_kafka_python.Base.Text.{Text, codes}
use confluent_kafka_python.Object.{
  Object, none_object, bool, Entries, end, entry, type_error, runtime_error, encode_error,
}
use confluent_kafka_python.Headers.{c_string}
use confluent_kafka_python.World.{
  World, Env, Conf, ClientType, Answer, gives, throws, M, pure, raise, raise_if, modify, set_error,
  as_utf8, as_utf8_lem, Encodes, ◌>>=◌, ◌>>◌,
}
use confluent_kafka_python.Attributes.{get_bool}
use confluent_kafka_python.Dict.{delete_text}
use confluent_kafka_python.Config.{
  set_conf, unchecked_text, set_special, resolve_plugins, callback_of, Special, error_special,
  throttle_special, stats_special, logger_special, delivery_special, only_error_special,
  commit_special, no_special, special_of, require_callable, require_object, value_text,
  set_property, set_properties,
}
use confluent_kafka_python.Config.Steps.{
  Kept, IsSetting, Any, IsSetting->>=, option-IsSetting, raise_if-IsSetting, Passes,
  set_conf-IsSetting,
}

-- A callback or setting is stored, behind a check.
stored :
    (type : ClientType) (c : Conf) (m : M (Unit {0})) (f : World → World)
    → Passes type c
    → IsSetting Any m
    → ((w : World) → Kept w (f w))
    → IsSetting (Passes type) (m >> (modify f >> pure c))
stored type c m f p h k =
    IsSetting->>= Any (Passes type) m (λ _. modify f >> pure c) h (λ _ _ w. (p, k w))

unchecked_text-IsSetting : (env : Env) (t : Text) → IsSetting Any (unchecked_text env t)
unchecked_text-IsSetting env t =
    option-IsSetting Any (env.utf8 t) (set_error encode_error >> pure none)
      (λ b. pure (some (c_string b))) (λ w. (tt, refl)) (λ b w. (tt, refl))

value_text-IsSetting : (env : Env) (vo : Object) → IsSetting Any (value_text env vo)
value_text-IsSetting env none_object = λ w. (tt, refl)
value_text-IsSetting env vo =
    option-IsSetting Any (env.to_str vo)
      (raise (type_error "expected configuration property value as type unicode string"))
      (unchecked_text env) (λ w. ((_, refl), refl)) (unchecked_text-IsSetting env)

set_property-IsSetting :
    (env : Env) (type : ClientType) (s : Special) (k : Text) (vo : Object) (c : Conf)
    → special_of type k ≡ s
    → Passes type c
    → IsSetting (Passes type) (set_property env s k vo c)
unfolding set_property get_bool
set_property-IsSetting env type error_special k vo c e p =
    stored type c (require_callable env vo _) (λ w. record w { error_cb = callback_of vo }) p
      (raise_if-IsSetting _ _) (λ w. refl)
set_property-IsSetting env type throttle_special k vo c e p =
    stored type c (require_callable env vo _) (λ w. record w { throttle_cb = callback_of vo }) p
      (raise_if-IsSetting _ _) (λ w. refl)
set_property-IsSetting env type stats_special k vo c e p =
    stored type c (require_callable env vo _) (λ w. record w { stats_cb = callback_of vo }) p
      (raise_if-IsSetting _ _) (λ w. refl)
set_property-IsSetting env type logger_special k vo c e p = λ w. (p, refl)
set_property-IsSetting env type delivery_special k vo c e p =
    stored type c (require_object env k vo) (λ w. record w { default_dr_cb = some vo }) p
      (raise_if-IsSetting _ _) (λ w. refl)
set_property-IsSetting env type only_error_special k (bool b) c e p = λ w. (p, refl)
set_property-IsSetting env type only_error_special k vo c e p = λ w. ((_, refl), refl)
set_property-IsSetting env type commit_special k vo c e p =
    stored type c (require_object env k vo) (λ w. record w { on_commit = some vo }) p
      (raise_if-IsSetting _ _) (λ w. refl)
set_property-IsSetting env type no_special k vo c e p =
    IsSetting->>= Any (Passes type) (value_text env vo) (λ v. set_conf env c k v)
      (value_text-IsSetting env vo) (λ v _. set_conf-IsSetting env type c k v e p)

pub set_properties-IsSetting :
    (env : Env) (type : ClientType) (es : Entries) (c : Conf)
    → Encodes env
    → Passes type c
    → IsSetting (Passes type) (set_properties env type es c)
unfolding set_properties
set_properties-IsSetting env type end c n p = λ w. (p, refl)
set_properties-IsSetting env type (entry ko vo es) c n p =
    option-IsSetting (Passes type) (env.to_str ko)
      (raise (type_error "expected configuration property name as type unicode string"))
      (λ t. as_utf8 env t >>= named) (λ w. ((_, refl), refl))
      (λ t.
        as_utf8_lem (IsSetting (Passes type)) env t named n
          (named-IsSetting (λ c p. set_properties-IsSetting env type es c n p)))
  where
    named : Text → M Conf
    named k = set_property env (special_of type (c_string k)) (c_string k) vo c >>= λ c.
        set_properties env type es c

    named-IsSetting :
        ((c : Conf) → Passes type c → IsSetting (Passes type) (set_properties env type es c))
        → (k : Text) → IsSetting (Passes type) (named k)
    named-IsSetting rest k =
        IsSetting->>= (Passes type) (Passes type)
          (set_property env (special_of type (c_string k)) (c_string k) vo c)
          (λ c. set_properties env type es c)
          (set_property-IsSetting env type (special_of type (c_string k)) (c_string k) vo c refl p)
          rest

abbrev pub PassesPair : ClientType → Entries × Conf → Type 0
PassesPair type p = Passes type p.1

pub set_special-IsSetting :
    (env : Env) (type : ClientType) (es : Entries) (c : Conf) (name : Text) (vo : Object)
    → special_of type name ≡ no_special
    → Passes type c
    → IsSetting (PassesPair type) (set_special env es c name vo)
unfolding set_special
set_special-IsSetting env type es c name vo e p =
    option-IsSetting (PassesPair type) (env.to_str vo)
      (raise (type_error "expected configuration property as type unicode string"))
      (λ t. unchecked_text env t >>= valued) (λ w. ((_, refl), refl))
      λ t.
        IsSetting->>= Any (PassesPair type) (unchecked_text env t) valued
          (unchecked_text-IsSetting env t)
          λ v _.
            IsSetting->>= (Passes type) (PassesPair type) (set_conf env c name v)
              (λ c. pure (delete_text name es, c)) (set_conf-IsSetting env type c name v e p)
              (λ c p w. (p, refl))
  where
    valued : Option Text → M (Entries × Conf)
    valued v = set_conf env c name v >>= λ c. pure (delete_text name es, c)

pub resolve_plugins-IsSetting : (env : Env) (o : Object) → IsSetting Any (resolve_plugins env o)
unfolding resolve_plugins
resolve_plugins-IsSetting env o =
    IsSetting->>= Any Any (raise_if _ _) (λ _. found) (raise_if-IsSetting _ _)
      (λ _ _.
        IsSetting->>= Any Any (raise_if _ _) (λ _. answered (env.resolve_plugins o))
          (raise_if-IsSetting _ _) (λ _ _. answered-IsSetting (env.resolve_plugins o)))
  where
    answered : Answer → M Object
    answered a = elim a [
      | gives o ↦ pure o
      | throws n ↦ raise (runtime_error "confluent_kafka._resolve_plugins() failed")
    ]

    answered-IsSetting : (a : Answer) → IsSetting Any (answered a)
    answered-IsSetting (gives o) = λ w. (tt, refl)
    answered-IsSetting (throws n) = λ w. ((_, refl), refl)

    found : M Object
    found =
        raise_if (not (env.has_class (codes "_resolve_plugins")))
          (runtime_error "confluent_kafka._resolve_plugins() not found")
        >> answered (env.resolve_plugins o)

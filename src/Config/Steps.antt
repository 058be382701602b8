-- ===== src/Config/Steps.antt =====
-- What the steps of common_conf_setup change, and the names that they pass on to librdkafka.
use confluent_kafka_python.Base.{
  ◌≡◌, ◌≢◌, refl, ◌∙◌, ap, subst, Bool, true, false, Option, none, some, List, [], ◌∷◌,
}
use confluent_kafka_python.Base.Text.{Text, codes, strcmp}
use confluent_kafka_python.Object.{Exception}
use confluent_kafka_python.World.{
  World, Env, Conf, ClientType, producer, consumer, admin, M, Result, ok, null, fault, pure, raise,
  raise_if, ◌>>=◌,
}
use confluent_kafka_python.World.Quiet.{bind}
use confluent_kafka_python.Config.{
  empty_conf, invalid_arg, set_conf, try_conf, set_software, no_special, special_of,
}

-- Only the error indicator and the client's callbacks and settings may differ.
abbrev pub Kept : World → World → Type 0
Kept w u = u ≡ record w {
  error = u.error;
  error_cb = u.error_cb;
  throttle_cb = u.throttle_cb;
  stats_cb = u.stats_cb;
  logger = u.logger;
  on_commit = u.on_commit;
  default_dr_cb = u.default_dr_cb;
  dr_only_error = u.dr_only_error;
}

Kept-trans : (w u v : World) → Kept w u → Kept u v → Kept w v
Kept-trans w u v h k =
    k
    ∙ ap
        (λ (x : World). record x {
          error = v.error;
          error_cb = v.error_cb;
          throttle_cb = v.throttle_cb;
          stats_cb = v.stats_cb;
          logger = v.logger;
          on_commit = v.on_commit;
          default_dr_cb = v.default_dr_cb;
          dr_only_error = v.dr_only_error;
        })
        h

-- An end without a fault that keeps all else, with an exception where there is no value.
abbrev pub Sets : {A : Type 0} → (A → Type 0) → World → Result A × World → Type 0
Sets P w (ok a, u) = P a × Kept w u
Sets P w (null, u) = ((e : Exception) × (u.error ≡ some e)) × Kept w u
Sets P w (fault, u) = ⊥

abbrev pub IsSetting : {A : Type 0} → (A → Type 0) → M A → Type 0
IsSetting P m = (w : World) → Sets P w (m w)

abbrev pub Any : {A : Type 0} → A → Type 0
Any a = Unit {0}

module _ {A B : Type 0} (P : A → Type 0) (Q : B → Type 0) where
  pub IsSetting->>= :
      (m : M A) (k : A → M B)
      → IsSetting P m
      → ((a : A) → P a → IsSetting Q (k a))
      → IsSetting Q (m >>= k)
  IsSetting->>= m k hm hk w = go (m w) (hm w)
    where
      again : (u : World) (r : Result B × World) → Kept w u → Sets Q u r → Sets Q w r
      again u (ok b, v) h (q, g) = (q, Kept-trans w u v h g)
      again u (null, v) h (e, g) = (e, Kept-trans w u v h g)
      again u (fault, v) h g = g

      go : (r : Result A × World) → Sets P w r → Sets Q w (bind r k)
      go (ok a, u) (p, h) = again u (k a u) h (hk a p u)
      go (null, u) h = h
      go (fault, u) h = h

-- The two shapes of a test.
pub option-IsSetting :
    {A B : Type 0} (P : B → Type 0) (o : Option A) (m : M B) (k : A → M B)
    → IsSetting P m
    → ((a : A) → IsSetting P (k a))
    → IsSetting P (elim o [ none ↦ m | some a ↦ k a ])
option-IsSetting P none m k hm hk = hm
option-IsSetting P (some a) m k hm hk = hk a

pub raise_if-IsSetting : (b : Bool) (e : Exception) → IsSetting Any (raise_if b e)
raise_if-IsSetting true e = λ w. ((e, refl), refl)
raise_if-IsSetting false e = λ w. (tt, refl)

-- The properties that are for the extension, by the client that has them: those that docs/index.rst
-- lists, and the Producer's delivery.report.only.error.
abbrev pub common_names : List Text
common_names = codes "error_cb" ∷ codes "throttle_cb" ∷ codes "stats_cb" ∷ codes "logger" ∷ []

abbrev pub own_names : ClientType → List Text
own_names producer = codes "on_delivery" ∷ codes "delivery.report.only.error" ∷ common_names
own_names consumer = codes "on_commit" ∷ common_names
own_names admin = common_names

abbrev pub IsOther : Text → List Text → Type 0
IsOther k [] = Unit {0}
IsOther k (n ∷ ns) = (k ≢ n) × IsOther k ns

special_of_lem :
    (type : ClientType) (k : Text) → special_of type k ≡ no_special → IsOther k (own_names type)
unfolding special_of strcmp
special_of_lem producer k e = (
  apart (λ h. cc),
  (apart (λ h. cc), (apart (λ h. cc), (apart (λ h. cc), (apart (λ h. cc), (apart (λ h. cc), tt))))),
)
  where
    apart : {n : Text} → special_of producer n ≢ no_special → k ≢ n
    apart h q = h (subst (λ k. special_of producer k ≡ no_special) q e)
special_of_lem consumer k e = (
  apart (λ h. cc),
  (apart (λ h. cc), (apart (λ h. cc), (apart (λ h. cc), (apart (λ h. cc), tt)))),
)
  where
    apart : {n : Text} → special_of consumer n ≢ no_special → k ≢ n
    apart h q = h (subst (λ k. special_of consumer k ≡ no_special) q e)
special_of_lem admin k e =
    (apart (λ h. cc), (apart (λ h. cc), (apart (λ h. cc), (apart (λ h. cc), tt))))
  where
    apart : {n : Text} → special_of admin n ≢ no_special → k ≢ n
    apart h q = h (subst (λ k. special_of admin k ≡ no_special) q e)

-- The names that librdkafka gets are not those of the properties that are for the extension.
abbrev pub IsPassed : ClientType → List (Text × Option Text) → Type 0
IsPassed type [] = Unit {0}
IsPassed type ((k, v) ∷ ss) = IsOther k (own_names type) × IsPassed type ss

abbrev pub Passes : ClientType → Conf → Type 0
Passes type c = IsPassed type c.settings

pub set_conf-IsSetting :
    (env : Env) (type : ClientType) (c : Conf) (k : Text) (v : Option Text)
    → special_of type k ≡ no_special
    → Passes type c
    → IsSetting (Passes type) (set_conf env c k v)
unfolding set_conf
set_conf-IsSetting env type c k v e p =
    option-IsSetting (Passes type) (env.conf_set c.settings k v)
      (pure (record c { settings = (k, v) ∷ c.settings }))
      (λ errstr. raise (invalid_arg env errstr)) (λ w. ((special_of_lem type k e, p), refl))
      (λ errstr w. ((_, refl), refl))

pub try_conf-Passes :
    (env : Env) (type : ClientType) (c : Conf) (k : Text) (v : Option Text)
    → special_of type k ≡ no_special
    → Passes type c
    → Passes type (try_conf env c k v)
try_conf-Passes env type c k v e p = go (env.conf_set c.settings k v)
  where
    tried : Option Text → Conf
    tried o = elim o [ none ↦ record c { settings = (k, v) ∷ c.settings } | some errstr ↦ c ]

    go : (o : Option Text) → Passes type (tried o)
    go none = (special_of_lem type k e, p)
    go (some errstr) = p

pub software_names :
    (type : ClientType)
    → (special_of type (codes "client.software.name") ≡ no_special)
      × (special_of type (codes "client.software.version") ≡ no_special)
      × (special_of type (codes "debug") ≡ no_special)
      × (special_of type (codes "plugin.library.paths") ≡ no_special)
      × (special_of type (codes "log.queue") ≡ no_special)
unfolding special_of strcmp
software_names producer = (refl, refl, refl, refl, refl)
software_names consumer = (refl, refl, refl, refl, refl)
software_names admin = (refl, refl, refl, refl, refl)

pub set_software-Passes :
    (env : Env) (type : ClientType) → Passes type (set_software env empty_conf)
unfolding set_software
set_software-Passes env type =
    try_conf-Passes env type _ (codes "client.software.version") _ (software_names type).1 (
      try_conf-Passes env type empty_conf (codes "client.software.name") _ (software_names type).0
        tt)

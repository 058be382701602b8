-- ===== src/Admin/Requests.antt =====
-- The five requests of an AdminClient, each on every path.
use confluent_kafka_python.Base.{
  ℕ, suc, ◌≡◌, refl, sym, subst, inl, inr, Bool, true, false, not, Option, none, some, List, [],
  ◌∷◌, length, arith, Bool-cases,
}
use confluent_kafka_python.Base.Text.{codes}
use confluent_kafka_python.Object.{Object, bool, Exception, type_error}
use confluent_kafka_python.World.{
  World, Env, AdminApi, create_topics, delete_topics, create_partitions, describe_configs,
  alter_configs, CObject, M, Result, ok, null, fault, parsed, raise_if, Encodes, return_null, ◌>>=◌,
  ◌>>◌,
}
use confluent_kafka_python.World.Quiet.{bind, Quiet, IsQuiet}
use confluent_kafka_python.Attributes.{get_bool}
use confluent_kafka_python.AdminTypes.{NewTopic, NewPartitions}
use confluent_kafka_python.Admin.Options.{Options, options_to_c, destroy_options}
use confluent_kafka_python.Admin.Build.{
  Item, Round, Resource, build_all, build_topic, build_deletion, build_partitions,
  build_description, build_alteration,
}
use confluent_kafka_python.Admin.Request.{
  Arguments, hold_future, after_loop, perform, perform_configs, lookup, non_empty, with_validation,
  create_topics_request, delete_topics_request, create_partitions_request, describe_configs_request,
  alter_configs_request,
}
use confluent_kafka_python.Admin.Rounds.{
  IsRound, Looped, build_all-Looped, build_topic-IsRound, build_deletion-IsRound,
  build_partitions-IsRound,
}
use confluent_kafka_python.Admin.Resources.{build_description-IsRound, build_alteration-IsRound}
use confluent_kafka_python.Admin.Accounts.{
  opened, HasOptions, options_to_c-HasOptions, IsOpen, Requested, inside, submit-Requested,
  abandon-Requested,
}

-- From the loop on.
abbrev looping :
    {A : Type 0} → Env → AdminApi → ℕ → (A → M Round) → List (Item A) → CObject → M Object
looping env api future make xs options =
    hold_future future >> (build_all make 0 xs >>= after_loop env api options future)

looping-Requested :
    {A : Type 0} (env : Env) (api : AdminApi) (future : ℕ) (make : A → M Round) (xs : List (Item A))
    (options : CObject) (w : World)
    → ((a : A) → IsRound (make a))
    → IsOpen w
    → Requested api (length xs) future w (looping env api future make xs options (opened w))
looping-Requested env api future make xs options w q h =
    go (build_all make 0 xs (inside0)) (build_all-Looped make 0 xs inside0 q)
  where
    inside0 : World
    inside0 = record w {
      held = record w.held { options = suc w.held.options; futures = future ∷ w.held.futures };
    }

    go :
        (r : Result (Option (List CObject) × ℕ) × World)
        → Looped 0 (length xs) inside0 r
        → Requested api (length xs) future w (bind r (after_loop env api options future))
    go (ok (some cs, j), u) (x, e, i, l) =
        subst (λ n. Requested api n future w (after_loop env api options future (some cs, j) u)) l
          (subst
            (λ v.
              Requested api (length cs) future w (after_loop env api options future (some cs, j) v))
            (sym e) (submit-Requested env api cs options future x w h))
    go (ok (none, j), u) (x, n, e, i) =
        subst
          (λ v. Requested api (length xs) future w (after_loop env api options future (none, j) v))
          (sym e)
          (subst
            (λ k.
              Requested api (length xs) future w
                (after_loop env api options future (none, k) (inside future n (some x) w)))
            (sym e0) (abandon-Requested env api (length xs) future n x w h))
      where
        e0 : j ≡ n
        e0 = omega (arith, i)
    go (null, u) k = absurd k
    go (fault, u) k = absurd k

refused :
    (api : AdminApi) (count future : ℕ) (x : Exception) (w u : World)
    → IsOpen w
    → u ≡ record w { error = some x }
    → Requested api count future w (null, u)
refused api count future x w u h e =
    subst (λ v. Requested api count future w (null, v)) (sym e)
      (record {
        outcome = inr (refl, refl, refl, (x, refl));
        open_client = record { rk = h.rk; gil = h.gil; tls = h.tls };
      })

perform-Requested :
    {A : Type 0} (env : Env) (api : AdminApi) (o : Options) (future : ℕ) (make : A → M Round)
    (xs : List (Item A)) (w : World)
    → ((a : A) → IsRound (make a))
    → IsOpen w
    → Requested api (length xs) future w (perform env api o future make xs w)
unfolding perform
perform-Requested env api o future make xs w q h =
    go (options_to_c env api o w) (options_to_c-HasOptions env api o w)
  where
    go :
        (r : Result CObject × World)
        → HasOptions w r
        → Requested api (length xs) future w (bind r (looping env api future make xs))
    go (ok c, u) e =
        subst (λ v. Requested api (length xs) future w (looping env api future make xs c v)) (sym e)
          (looping-Requested env api future make xs c w q h)
    go (null, u) (x, e) = refused api (length xs) future x w u h e
    go (fault, u) e = absurd e

-- A conversion before the request.
before-Requested :
    {A : Type 0} (api : AdminApi) (count future : ℕ) (m : M A) (k : A → M Object) (w : World)
    → IsQuiet m
    → ((a : A) (v : World) → IsOpen v → Requested api count future v (k a v))
    → IsOpen w
    → Requested api count future w ((m >>= k) w)
before-Requested {A = A} api count future m k w q hk h = go (m w) (q w)
  where
    with_error : Option Exception → World
    with_error x = record w { error = x }

    again :
        (x : Option Exception) (r : Result Object × World)
        → Requested api count future (with_error x) r
        → Requested api count future w r
    again x r g = record { outcome = g.outcome; open_client = g.open_client }

    go : (r : Result A × World) → Quiet w r → Requested api count future w (bind r k)
    go (ok a, u) (x, e) =
        subst (λ v. Requested api count future w (k a v)) (sym e)
          (again x (k a (with_error x))
            (hk a (with_error x) (record { rk = h.rk; gil = h.gil; tls = h.tls })))
    go (null, u) (x, e) = refused api count future x w u h e
    go (fault, u) e = absurd e

perform_configs-Requested :
    (env : Env) (api : AdminApi) (o : Options) (future : ℕ) (make : Resource → M Round)
    (xs : List (Item Resource)) (w : World)
    → env.imports (codes "confluent_kafka.admin") ≡ true
    → ((r : Resource) → IsRound (make r))
    → IsOpen w
    → Requested api (length xs) future w (perform_configs env api o future make xs w)
unfolding perform_configs lookup
perform_configs-Requested env api o future make xs w i q h =
    go (options_to_c env api o w) (options_to_c-HasOptions env api o w)
  where
    class_test : Bool → M (Unit {0})
    class_test b = raise_if (not b) (type_error "No such class/type/object")

    freed : Result (Unit {0}) × World → Result (Unit {0}) × World
    freed r = elim r.0 [
      | ok a ↦ (ok a, r.1)
      | null ↦ (destroy_options >> return_null) r.1
      | fault ↦ (fault, r.1)
    ]

    looked : Bool → Bool → CObject → World → Result Object × World
    looked imported found c v =
        bind (freed (tested imported v)) (λ _. looping env api future make xs c)
      where
        tested : Bool → M (Unit {0})
        tested b = elim b [ false ↦ λ v. (fault, v) | true ↦ class_test found ]

    found :
        (c : CObject)
        → Requested api
            (length xs)
            future
            w
            (looked true (env.has_class (codes "ConfigResource")) c (opened w))
    found c = elim (Bool-cases (env.has_class (codes "ConfigResource"))) [
      | inl e ↦
          subst (λ b. Requested api (length xs) future w (looked true b c (opened w))) (sym e)
            (looping-Requested env api future make xs c w q h)
      | inr e ↦
          subst (λ b. Requested api (length xs) future w (looked true b c (opened w))) (sym e)
            (refused api (length xs) future _ w _ h refl)
    ]

    go :
        (r : Result CObject × World)
        → HasOptions w r
        → Requested api (length xs) future w (
            bind r (
              looked
                (env.imports (codes "confluent_kafka.admin"))
                (env.has_class (codes "ConfigResource"))))
    go (ok c, u) e =
        subst
          (λ v. Requested api (length xs) future w (
            looked (env.imports (codes "confluent_kafka.admin"))
              (env.has_class (codes "ConfigResource")) c v))
          (sym e)
          (subst
            (λ b.
              Requested api (length xs) future w
                (looked b (env.has_class (codes "ConfigResource")) c (opened w)))
            (sym i) (found c))
    go (null, u) (x, e) = refused api (length xs) future x w u h e
    go (fault, u) e = absurd e

-- The number of items, if a list is given.
abbrev pub count_of : {A : Type 0} → Option (List (Item A)) → ℕ
count_of none = 0
count_of (some xs) = length xs

listed-Requested :
    {A : Type 0} (api : AdminApi) (future : ℕ) (items : Option (List (Item A)))
    (k : List (Item A) → M Object) (w : World)
    → ((xs : List (Item A)) → Requested api (length xs) future w (k xs w))
    → IsOpen w
    → Requested api (count_of items) future w ((non_empty items >>= k) w)
listed-Requested api future none k w hk h = refused api 0 future _ w _ h refl
listed-Requested api future (some []) k w hk h = refused api 0 future _ w _ h refl
listed-Requested api future (some (x ∷ xs)) k w hk h = hk (x ∷ xs)

with_validation-IsQuiet : (v : Option Object) (o : Options) → IsQuiet (with_validation v o)
unfolding get_bool
with_validation-IsQuiet none o = λ w. (w.error, refl)
with_validation-IsQuiet (some (bool b)) o = λ w. (w.error, refl)
with_validation-IsQuiet (some _) o = λ w. (_, refl)

-- With the list and the options checked first, as three of the requests do.
validated-Requested :
    {A : Type 0} (api : AdminApi) (a : Arguments A) (k : List (Item A) → Options → M Object)
    (w : World)
    → ((xs : List (Item A)) (o : Options) (v : World)
        → IsOpen v
        → Requested api (length xs) a.future v (k xs o v))
    → IsOpen w
    → Requested api
        (count_of a.items)
        a.future
        w
        ((non_empty a.items >>= λ xs. with_validation a.validate_only a.options >>= k xs) w)
validated-Requested api a k w hk h =
    listed-Requested api a.future a.items (λ xs. with_validation a.validate_only a.options >>= k xs)
      w
      (λ xs.
        before-Requested api (length xs) a.future (with_validation a.validate_only a.options) (k xs)
          w (with_validation-IsQuiet a.validate_only a.options) (hk xs) h)
      h

-- Admin_create_topics on arguments that parse and an open client with the lock held: either
-- it gives None, librdkafka was given one object for each item in one call, and one more reference to the
-- future is held; or it raises, librdkafka was not called, and every option, object, queue, text and
-- reference to the future is released. The client is then open with the lock held.
pub create_topics_request-Requested :
    (env : Env) (a : Arguments NewTopic) (w : World)
    → Encodes env
    → IsOpen w
    → Requested create_topics (count_of a.items) a.future w (create_topics_request env (parsed a) w)
unfolding create_topics_request
create_topics_request-Requested env a w n h =
    validated-Requested create_topics a
      (λ xs o. perform env create_topics o a.future (build_topic env) xs) w
      (λ xs o v.
        perform-Requested env create_topics o a.future (build_topic env) xs v
          (λ t. build_topic-IsRound env t n))
      h

-- Admin_delete_topics on arguments that parse and an open client with the lock held: either
-- it gives None, librdkafka was given one object for each item in one call, and one more reference to the
-- future is held; or it raises, librdkafka was not called, and every option, object, queue, text and
-- reference to the future is released. The client is then open with the lock held.
pub delete_topics_request-Requested :
    (env : Env) (a : Arguments Object) (w : World)
    → Encodes env
    → IsOpen w
    → Requested delete_topics (count_of a.items) a.future w (delete_topics_request env (parsed a) w)
unfolding delete_topics_request
delete_topics_request-Requested env a w n h =
    listed-Requested delete_topics a.future a.items
      (λ xs. perform env delete_topics a.options a.future (build_deletion env) xs) w
      (λ xs.
        perform-Requested env delete_topics a.options a.future (build_deletion env) xs w
          (λ o. build_deletion-IsRound env o n) h)
      h

-- Admin_create_partitions on arguments that parse and an open client with the lock held: either
-- it gives None, librdkafka was given one object for each item in one call, and one more reference to the
-- future is held; or it raises, librdkafka was not called, and every option, object, queue, text and
-- reference to the future is released. The client is then open with the lock held.
pub create_partitions_request-Requested :
    (env : Env) (a : Arguments NewPartitions) (w : World)
    → IsOpen w
    → Requested create_partitions
        (count_of a.items)
        a.future
        w
        (create_partitions_request env (parsed a) w)
unfolding create_partitions_request
create_partitions_request-Requested env a w h =
    validated-Requested create_partitions a
      (λ xs o. perform env create_partitions o a.future (build_partitions env) xs) w
      (λ xs o v.
        perform-Requested env create_partitions o a.future (build_partitions env) xs v
          (build_partitions-IsRound env))
      h

-- Admin_describe_configs on arguments that parse and an open client with the lock held, where
-- confluent_kafka.admin can be imported: either
-- it gives None, librdkafka was given one object for each item in one call, and one more reference to the
-- future is held; or it raises, librdkafka was not called, and every option, object, queue, text and
-- reference to the future is released. The client is then open with the lock held.
pub describe_configs_request-Requested :
    (env : Env) (a : Arguments Resource) (w : World)
    → env.imports (codes "confluent_kafka.admin") ≡ true
    → IsOpen w
    → Requested describe_configs
        (count_of a.items)
        a.future
        w
        (describe_configs_request env (parsed a) w)
unfolding describe_configs_request
describe_configs_request-Requested env a w i h =
    listed-Requested describe_configs a.future a.items
      (λ xs. perform_configs env describe_configs a.options a.future (build_description env) xs) w
      (λ xs.
        perform_configs-Requested env describe_configs a.options a.future (build_description env) xs
          w i (build_description-IsRound env) h)
      h

-- Admin_alter_configs on arguments that parse and an open client with the lock held, where
-- confluent_kafka.admin can be imported: either
-- it gives None, librdkafka was given one object for each item in one call, and one more reference to the
-- future is held; or it raises, librdkafka was not called, and every option, object, queue, text and
-- reference to the future is released. The client is then open with the lock held.
pub alter_configs_request-Requested :
    (env : Env) (a : Arguments Resource) (w : World)
    → env.imports (codes "confluent_kafka.admin") ≡ true
    → Encodes env
    → IsOpen w
    → Requested alter_configs (count_of a.items) a.future w (alter_configs_request env (parsed a) w)
unfolding alter_configs_request
alter_configs_request-Requested env a w i n h =
    validated-Requested alter_configs a
      (λ xs o. perform_configs env alter_configs o a.future (build_alteration env) xs) w
      (λ xs o v.
        perform_configs-Requested env alter_configs o a.future (build_alteration env) xs v i
          (λ r. build_alteration-IsRound env r n))
      h

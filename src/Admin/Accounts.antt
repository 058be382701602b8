-- ===== src/Admin/Accounts.antt =====
-- What a request of an AdminClient leaves behind, on every path.
use confluent_kafka_python.Base.{
  ℕ, suc, ◌+◌, ◌≡◌, refl, sym, subst, ◌⊎◌, inl, inr, Bool, true, false, not, Option, none, some,
  List, [], ◌∷◌, length, arith, Option-cases, Bool-cases,
}
use confluent_kafka_python.Object.{
  Object, none_object, Exception, application, invalid_value, runtime_error,
}
use confluent_kafka_python.World.{
  World, Env, RdCall, AdminApi, Setter, CObject, M, Result, ok, null, fault, pure, raise, raise_if,
  return_null, call, ◌>>=◌, ◌>>◌,
}
use confluent_kafka_python.World.Quiet.{bind, at_option}
use confluent_kafka_python.CallState
use confluent_kafka_python.Consumer.Balance.Blocking.{finish_quiet, finish_signal}
use confluent_kafka_python.Admin.Options.{
  Options, options_to_c, set_option, own_options, destroy_options, destroy_objects, is_set_int,
  is_set_float, truncate,
}
use confluent_kafka_python.Admin.Request.{drop_ref, drop_future, destroy_queue, submit, abandon}

-- With the options made: the state where they are owned.
abbrev pub opened : World → World
opened w = record w { held = record w.held { options = suc w.held.options } }

-- Options, owned by the caller, or an exception and nothing owned.
abbrev pub HasOptions : World → Result CObject × World → Type 0
HasOptions w (ok c, u) = u ≡ opened w
HasOptions w (null, u) = (x : Exception) × (u ≡ record w { error = some x })
HasOptions w (fault, u) = ⊥

set_option-HasOptions :
    (env : Env) (is_set : Bool) (s : Setter) (c : CObject) (w : World)
    → HasOptions w (set_option env is_set s c (opened w))
unfolding set_option
set_option-HasOptions env false s c w = refl
set_option-HasOptions env true s c w =
    at_option (HasOptions w) (env.setter c s) (pure (s ∷ c))
      (λ t. destroy_options >> raise (invalid_value t)) (opened w) (λ e. refl)
      (λ t e. (invalid_value t, refl))

then-HasOptions :
    (m : M CObject) (k : CObject → M CObject) (v w : World)
    → HasOptions w (m v)
    → ((c : CObject) → HasOptions w (k c (opened w)))
    → HasOptions w ((m >>= k) v)
then-HasOptions m k v w hm hk = go (m v) hm
  where
    go : (r : Result CObject × World) → HasOptions w r → HasOptions w (bind r k)
    go (ok c, u) e = subst (λ x. HasOptions w (k c x)) (sym e) (hk c)
    go (null, u) e = e
    go (fault, u) e = e

-- The setters of the options, from the last on.
abbrev from_broker : Env → Options → CObject → M CObject
from_broker env o c = set_option env (is_set_int o.broker) (Setter.broker o.broker) c

abbrev from_operation : Env → Options → CObject → M CObject
from_operation env o c =
    set_option env (is_set_float o.operation_timeout)
      (Setter.operation_timeout (truncate 1000 o.operation_timeout)) c
    >>= from_broker env o

abbrev from_request : Env → Options → CObject → M CObject
from_request env o c =
    set_option env (is_set_float o.request_timeout)
      (Setter.request_timeout (truncate 1000 o.request_timeout)) c
    >>= from_operation env o

abbrev rest_options : Env → Options → M CObject
rest_options env o =
    set_option env (is_set_int o.validate_only) (Setter.validate_only o.validate_only) []
    >>= from_request env o

rest_options-HasOptions :
    (env : Env) (o : Options) (w : World) → HasOptions w (rest_options env o (opened w))
rest_options-HasOptions env o w =
    then-HasOptions
      (set_option env (is_set_int o.validate_only) (Setter.validate_only o.validate_only) [])
      (from_request env o) (opened w) w
      (set_option-HasOptions env (is_set_int o.validate_only) (Setter.validate_only o.validate_only)
        [] w)
      λ c.
        then-HasOptions
          (set_option env (is_set_float o.request_timeout)
            (Setter.request_timeout (truncate 1000 o.request_timeout)) c)
          (from_operation env o) (opened w) w
          (set_option-HasOptions env (is_set_float o.request_timeout)
            (Setter.request_timeout (truncate 1000 o.request_timeout)) c w)
          λ c.
            then-HasOptions
              (set_option env (is_set_float o.operation_timeout)
                (Setter.operation_timeout (truncate 1000 o.operation_timeout)) c)
              (from_broker env o) (opened w) w
              (set_option-HasOptions env (is_set_float o.operation_timeout)
                (Setter.operation_timeout (truncate 1000 o.operation_timeout)) c w)
              (λ c. set_option-HasOptions env (is_set_int o.broker) (Setter.broker o.broker) c w)

pub options_to_c-HasOptions :
    (env : Env) (api : AdminApi) (o : Options) (w : World) → HasOptions w (options_to_c env api o w)
unfolding options_to_c
options_to_c-HasOptions env api o w = elim (Bool-cases (env.supports api)) [
  | inl e ↦ subst (λ b. Good b) (sym e) (rest_options-HasOptions env o w)
  | inr e ↦ subst (λ b. Good b) (sym e) (_, refl)
]
  where
    Good : Bool → Type 0
    Good b = HasOptions w (
        (raise_if (not b) (runtime_error "This Admin API method is unsupported by librdkafka")
            >> (own_options >> rest_options env o))
          w)

-- The client is open, with the lock held, outside any blocking call.
pub record IsOpen (w : World) : Type 0 where
  pub rk : w.rk ≡ true
  pub gil : w.gil ≡ true
  pub tls : w.tls ≡ false

-- What a request of `count` items leaves: it was made with an object for each, and the future is held for its event; or an exception is set,
-- librdkafka was not called, and what is owned is as before.
pub record Requested (api : AdminApi) (count future : ℕ) (w : World) (r : Result Object × World)
    : Type 0 where
  pub outcome :
      ((r.0 ≡ ok none_object)
        × (r.1.held ≡ record w.held { futures = future ∷ w.held.futures })
        × ((cs : List CObject) × (options : CObject) × (length cs ≡ count)
            × (r.1.calls ≡ RdCall.admin api cs options future ∷ w.calls)))
      ⊎ ((r.0 ≡ null)
          × (r.1.held ≡ w.held)
          × (r.1.calls ≡ w.calls)
          × ((x : Exception) × (r.1.error ≡ some x)))
  pub open_client : IsOpen r.1

-- Inside a request, with `n` objects made.
abbrev pub inside : ℕ → ℕ → Option Exception → World → World
inside future n x w = record w {
  error = x;
  held = record w.held {
    options = suc w.held.options;
    objects = w.held.objects + n;
    futures = future ∷ w.held.futures;
  };
}

destroy_objects_lem :
    (n o : ℕ) (v : World)
    → v.held.objects ≡ o + n
    → destroy_objects n v ≡ (ok tt, record v { held = record v.held { objects = o } })
destroy_objects_lem n o v e = ground arith

pub begin_lem :
    (v : World)
    → v.gil ≡ true
    → CallState.begin v ≡ (ok tt, record v { gil = false; saved = true; crashed = 0; tls = true })
unfolding CallState.begin
begin_lem v g = ground arith

pub call_lem :
    (c : RdCall) (v : World) → v.rk ≡ true → call c v ≡ (ok tt, record v { calls = c ∷ v.calls })
call_lem c v h = ground arith

-- CallState_end always takes the lock again.
finish_lem :
    (env : Env) (v : World)
    → v.gil ≡ false
    → (b : Bool) × (x : Option Exception) × (CallState.finish env v
        ≡ (ok b, record v { tls = false; gil = true; error = x }))
finish_lem env v g = elim (Option-cases (env.signal v.calls)) [
  | inl e ↦ (_, v.error, finish_quiet env v g e)
  | inr (k, e) ↦ (false, some (application k), finish_signal env v k g e)
]

-- The end of `submit`.
abbrev freeing : ℕ → M Object
freeing n = destroy_objects n >> (destroy_options >> (destroy_queue >> pure none_object))

abbrev waiting : ℕ → ℕ → RdCall → Option Exception → World → World
waiting future n c x w = record w {
  error = x;
  gil = false;
  saved = true;
  crashed = 0;
  tls = true;
  calls = c ∷ w.calls;
  held = record w.held {
    options = suc w.held.options;
    queues = suc w.held.queues;
    objects = w.held.objects + n;
    futures = future ∷ w.held.futures;
  };
}

pub submit-Requested :
    (env : Env) (api : AdminApi) (cs : List CObject) (options : CObject) (future : ℕ)
    (x : Option Exception) (w : World)
    → IsOpen w
    → Requested api (length cs) future w (
        submit env (RdCall.admin api cs options future) (length cs) (inside future (length cs) x w))
unfolding submit
submit-Requested env api cs options future x w h =
    subst (λ r. Good (bind r (λ _. call c >> (CallState.finish env >> freeing n))))
      (sym (begin_lem v1 h.gil))
      (subst (λ r. Good (bind r (λ _. CallState.finish env >> freeing n)))
        (sym (call_lem c v2 h.rk)) (ended (finish_lem env (waiting future n c x w) refl)))
  where
    n : ℕ
    n = length cs

    c : RdCall
    c = RdCall.admin api cs options future

    Good : Result Object × World → Type 0
    Good r = Requested api (length cs) future w r

    v1 : World
    v1 = record w {
      error = x;
      held = record w.held {
        options = suc w.held.options;
        queues = suc w.held.queues;
        objects = w.held.objects + n;
        futures = future ∷ w.held.futures;
      };
    }

    v2 : World
    v2 = record v1 { gil = false; saved = true; crashed = 0; tls = true }

    ended :
        (b : Bool) × (y : Option Exception) × (CallState.finish env (waiting future n c x w)
            ≡ (ok b, record (waiting future n c x w) { tls = false; gil = true; error = y }))
        → Good (bind (CallState.finish env (waiting future n c x w)) (λ _. freeing n))
    ended (b, y, e) =
        subst (λ r. Good (bind r (λ _. freeing n))) (sym e)
          (subst (λ r. Good (bind r (λ _. destroy_options >> (destroy_queue >> pure none_object))))
            (sym (
              destroy_objects_lem n w.held.objects
                (record (waiting future n c x w) { tls = false; gil = true; error = y }) refl))
            (record {
              outcome = inl (refl, refl, (cs, options, refl, refl));
              open_client = record { rk = h.rk; gil = refl; tls = refl };
            }))

drop_ref_head : (f : ℕ) (fs : List ℕ) → drop_ref f (f ∷ fs) ≡ some fs
unfolding drop_ref
drop_ref_head f fs = ground arith

pub abandon-Requested :
    (env : Env) (api : AdminApi) (count future : ℕ) (n : ℕ) (x : Exception) (w : World)
    → IsOpen w
    → Requested api count future w (abandon n future (inside future n (some x) w))
unfolding abandon drop_future
abandon-Requested env api count future n x w h =
    subst (λ r. Good (bind r (λ _. destroy_options >> (drop_future future >> return_null))))
      (sym (destroy_objects_lem n w.held.objects (inside future n (some x) w) refl))
      (subst (λ (r : Option (List ℕ)). Good (bind (dropped r) (λ _. return_null)))
        (sym (drop_ref_head future w.held.futures))
        (record {
          outcome = inr (refl, refl, refl, (x, refl));
          open_client = record { rk = h.rk; gil = h.gil; tls = h.tls };
        }))
  where
    Good : Result Object × World → Type 0
    Good r = Requested api count future w r

    v : World
    v = record w { error = some x; held = record w.held { futures = future ∷ w.held.futures } }

    dropped : Option (List ℕ) → Result (Unit {0}) × World
    dropped r = elim r [
      | none ↦ (fault, v)
      | some fs ↦ (ok tt, record v { held = record v.held { futures = fs } })
    ]

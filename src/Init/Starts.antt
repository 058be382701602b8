-- ===== src/Init/Starts.antt =====
-- Consumer_init, Producer_init and Admin_init on every path.
use confluent_kafka_python.Base.{
  ◌≡◌, refl, sym, ap, subst, ◌++◌, Bool, true, false, Option, none, some, List,
}
use confluent_kafka_python.Base.Text.{Text, codes}
use confluent_kafka_python.Object.{Object, Entries, Exception, runtime_error, kafka_exception}
use confluent_kafka_python.KafkaError.{new0}
use confluent_kafka_python.World.{
  World, Env, Conf, RdCall, ClientType, producer, consumer, admin, M, Result, ok, null, fault,
  Encodes, raise_if, gets, modify, set_error, return_null, when, call, ◌>>=◌, ◌>>◌,
}
use confluent_kafka_python.World.Quiet.{bind}
use confluent_kafka_python.Config.{common_conf_setup, destroy_conf, is_given}
use confluent_kafka_python.Config.Freed.{one_conf, Configures, common_conf_setup-Configures}
use confluent_kafka_python.Init.{
  create_client, forward_log, consumer_init, producer_init, admin_init,
}

-- The changes of a constructor: the type, the client and its queue, the calls made, and what the
-- configuration sets. Every owned object, the lock and the thread's state are kept.
abbrev pub Becomes : ClientType → Bool → Bool → World → World → Type 0
Becomes type rk rkqu w u = u ≡ record w {
  client_type = type;
  rk = rk;
  rkqu = rkqu;
  calls = u.calls;
  error = u.error;
  error_cb = u.error_cb;
  throttle_cb = u.throttle_cb;
  stats_cb = u.stats_cb;
  logger = u.logger;
  on_commit = u.on_commit;
  default_dr_cb = u.default_dr_cb;
  dr_only_error = u.dr_only_error;
}

-- An open client, or an exception and no client.
abbrev pub Starts : ClientType → Bool → World → Result (Unit {0}) × World → Type 0
Starts type rkqu w (ok a, u) = Becomes type true rkqu w u
Starts type rkqu w (null, u) =
    ((e : Exception) × (u.error ≡ some e)) × Becomes type false w.rkqu w u
Starts type rkqu w (fault, u) = ⊥

-- What follows rd_kafka_new.
abbrev Follows : Bool → World → Result (Unit {0}) × World → Type 0
Follows rkqu w (ok a, u) = u ≡ record w { rkqu = rkqu; calls = u.calls }
Follows rkqu w (null, u) = ⊥
Follows rkqu w (fault, u) = ⊥

abbrev start :
    Env
    → ClientType
    → (Conf → Conf)
    → Text
    → List Object
    → Option Entries
    → M (Unit {0})
    → M (Unit {0})
start env type dressed failure args kwargs after =
    modify (λ w. record w { client_type = type })
    >> (common_conf_setup env type args kwargs >>= λ c.
        create_client env (dressed c) failure >> after)

start-Starts :
    (env : Env) (type : ClientType) (dressed : Conf → Conf) (failure : Text) (args : List Object)
    (kwargs : Option Entries) (after : M (Unit {0})) (rkqu : Bool) (w : World)
    → Encodes env
    → w.rk ≡ false
    → ((v : World) → v.rk ≡ true → v.rkqu ≡ w.rkqu → Follows rkqu v (after v))
    → Starts type rkqu w (start env type dressed failure args kwargs after w)
unfolding create_client
start-Starts env type dressed failure args kwargs after rkqu w n f h =
    go (common_conf_setup env type args kwargs typed)
      (common_conf_setup-Configures env type args kwargs typed n)
  where
    typed : World
    typed = record w { client_type = type }

    as_set : World → World → World
    as_set v u = record v {
      error = u.error;
      error_cb = u.error_cb;
      throttle_cb = u.throttle_cb;
      stats_cb = u.stats_cb;
      logger = u.logger;
      on_commit = u.on_commit;
      default_dr_cb = u.default_dr_cb;
      dr_only_error = u.dr_only_error;
    }

    created : Option Text → M (Unit {0})
    created o = elim o [
      | none ↦ modify (λ w. record w { rk = true }) >> destroy_conf
      | some errstr ↦ do
        calls ← gets (λ w. w.calls)
        set_error
            (kafka_exception (new0 env.err2str (env.last_error calls) (some (failure ++ errstr))))
        destroy_conf
        return_null
    ]

    followed :
        (v : World) (r : Result (Unit {0}) × World)
        → Becomes type true w.rkqu w v
        → Follows rkqu v r
        → Starts type rkqu w r
    followed v (ok a, u) b e =
        subst (λ x. Becomes type true rkqu w x) (sym e)
          (ap (λ (x : World). record x { rkqu = rkqu; calls = u.calls }) b)
    followed v (null, u) b e = absurd e
    followed v (fault, u) b e = absurd e

    at_create :
        (u : World) (o : Option Text)
        → Starts type rkqu w (bind (created o (as_set (one_conf typed) u)) (λ _. after))
    at_create u none =
        followed (as_set (record typed { rk = true }) u)
          (after (as_set (record typed { rk = true }) u)) refl
          (h (as_set (record typed { rk = true }) u) refl refl)
    at_create u (some errstr) = ((_, refl), subst (λ b. failed b ≡ failed false) (sym f) refl)
      where
        failed : Bool → World
        failed b = record (as_set (record typed { rk = b }) u) {
          error = some (
              kafka_exception
                (new0 env.err2str (env.last_error w.calls) (some (failure ++ errstr))));
        }

    go :
        (r : Result Conf × World)
        → Configures type typed r
        → Starts type rkqu w (bind r (λ c. create_client env (dressed c) failure >> after))
    go (ok c, u) (p, k) =
        subst (λ v. Starts type rkqu w ((create_client env (dressed c) failure >> after) v)) (sym k)
          (at_create u (env.create (dressed c)))
    go (null, u) (e, k) = (
      e,
      subst (λ x. Becomes type false w.rkqu w x) (sym k)
          (subst (λ b. as_set (record typed { rk = b }) u ≡ as_set (record typed { rk = false }) u)
            (sym f) refl),
    )
    go (fault, u) k = absurd k

open_world : (v : World) → v.rk ≡ true → record v { rk = true } ≡ v
open_world v h = subst (λ b. record v { rk = b } ≡ v) h refl

forward_log-Follows : (v : World) → v.rk ≡ true → Follows v.rkqu v (forward_log v)
forward_log-Follows v h =
    subst (λ (v : World). Follows v.rkqu v (forward_log v)) (open_world v h)
      (go (is_given v.logger))
  where
    opened : World
    opened = record v { rk = true }

    go : (b : Bool) → Follows v.rkqu opened (when b (call RdCall.set_log_queue) opened)
    go true = refl
    go false = refl

abbrev with_queue : M (Unit {0})
with_queue =
    forward_log >> (call RdCall.poll_set_consumer >> modify (λ w. record w { rkqu = true }))

with_queue-Follows : (v : World) → v.rk ≡ true → Follows true v (with_queue v)
with_queue-Follows v h =
    subst (λ (v : World). Follows true v (with_queue v)) (open_world v h) (go (is_given v.logger))
  where
    opened : World
    opened = record v { rk = true }

    rest : M (Unit {0})
    rest = call RdCall.poll_set_consumer >> modify (λ w. record w { rkqu = true })

    go : (b : Bool) → Follows true opened ((when b (call RdCall.set_log_queue) >> rest) opened)
    go true = refl
    go false = refl

-- Producer_init of an object without a client, where every text can be encoded: it does not fault. Either it makes an open
-- client, which owns the configuration, or it raises, with no client and the configuration freed; the
-- lock, the thread's state and every other owned object are kept.
pub producer_init-Starts :
    (env : Env) (args : List Object) (kwargs : Option Entries) (w : World)
    → Encodes env
    → w.rk ≡ false
    → Starts producer w.rkqu w (producer_init env args kwargs w)
unfolding producer_init
producer_init-Starts env args kwargs w n f =
    subst (λ b. Starts producer w.rkqu w (guarded b)) (sym f)
      (start-Starts env producer (λ c. record c { delivery = true })
        (codes "Failed to create producer: ") args kwargs forward_log w.rkqu w n f
        (λ v e q. subst (λ b. Follows b v (forward_log v)) q (forward_log-Follows v e)))
  where
    guarded : Bool → Result (Unit {0}) × World
    guarded b =
        (raise_if b (runtime_error "Producer already __init__:ialized")
            >> start env producer (λ c. record c { delivery = true })
                (codes "Failed to create producer: ") args kwargs forward_log)
          w

-- Admin_init of an object without a client, where every text can be encoded: it does not fault. Either it makes an open
-- client, which owns the configuration, or it raises, with no client and the configuration freed; the
-- lock, the thread's state and every other owned object are kept.
pub admin_init-Starts :
    (env : Env) (args : List Object) (kwargs : Option Entries) (w : World)
    → Encodes env
    → w.rk ≡ false
    → Starts admin w.rkqu w (admin_init env args kwargs w)
unfolding admin_init
admin_init-Starts env args kwargs w n f =
    subst (λ b. Starts admin w.rkqu w (guarded b)) (sym f)
      (start-Starts env admin (λ c. record c { background = true })
        (codes "Failed to create admin client: ") args kwargs forward_log w.rkqu w n f
        (λ v e q. subst (λ b. Follows b v (forward_log v)) q (forward_log-Follows v e)))
  where
    guarded : Bool → Result (Unit {0}) × World
    guarded b =
        (raise_if b (runtime_error "Admin already __init__:ialized")
            >> start env admin (λ c. record c { background = true })
                (codes "Failed to create admin client: ") args kwargs forward_log)
          w

-- Consumer_init of an object without a client, where every text can be encoded: it does not fault. Either it makes an open
-- client with its queue, which owns the configuration, or it raises, with no client and the configuration freed; the
-- lock, the thread's state and every other owned object are kept.
pub consumer_init-Starts :
    (env : Env) (args : List Object) (kwargs : Option Entries) (w : World)
    → Encodes env
    → w.rk ≡ false
    → Starts consumer true w (consumer_init env args kwargs w)
unfolding consumer_init
consumer_init-Starts env args kwargs w n f =
    subst (λ b. Starts consumer true w (guarded b)) (sym f)
      (start-Starts env consumer (λ c. record c { rebalance = true; offset_commit = true })
        (codes "Failed to create consumer: ") args kwargs with_queue true w n f
        (λ v e q. with_queue-Follows v e))
  where
    guarded : Bool → Result (Unit {0}) × World
    guarded b =
        (raise_if b (runtime_error "Consumer already initialized")
            >> start env consumer (λ c. record c { rebalance = true; offset_commit = true })
                (codes "Failed to create consumer: ") args kwargs with_queue)
          w

-- ===== src/Consumer/Balance/Ending.antt =====
-- consumer_group_metadata() and close().
use confluent_kafka_python.Base.{
  ◌≡◌, sym, subst, Bool, true, false, not, ltb, Option, none, some, ◌∷◌, arith, Option-cases, inl,
  inr,
}
use confluent_kafka_python.Object.{Object, application}
use confluent_kafka_python.KafkaError.{LibError}
use confluent_kafka_python.Base.Text.{Text}
use confluent_kafka_python.World.{
  World, Env, RdCall, M, Result, ok, null, fault, modify, ◌>>=◌, ◌>>◌,
}
use confluent_kafka_python.World.Laws.{Survives}
use confluent_kafka_python.CallState
use confluent_kafka_python.Callbacks.{call_serving}
use confluent_kafka_python.Consumer.Lifecycle.{
  consumer_group_metadata, metadata_object, close, drop_queue, close_end, require_not_closed,
}
use confluent_kafka_python.Consumer.Balance.{IsReady, Owns, IsSafe, Behaves}
use confluent_kafka_python.Consumer.Balance.Rules.{Ends, bind}
use confluent_kafka_python.Consumer.Balance.Blocking.{
  Inside, Post, begin-Inside, call_serving-Inside, finish_quiet, finish_signal,
}

metadata_object-Ends :
    (env : Env) (cgmd : Option (Option LibError × Text)) (w u : World)
    → IsReady u
    → Owns w u
    → Ends w (metadata_object env cgmd u)
metadata_object-Ends env none w u h o = ground arith
metadata_object-Ends env (some (none, t)) w u h o = ground arith
metadata_object-Ends env (some (some e, t)) w u h o = ground arith

pub consumer_group_metadata-IsSafe : (env : Env) → IsSafe (consumer_group_metadata env)
unfolding consumer_group_metadata
consumer_group_metadata-IsSafe env w h = ground (
  arith,
  metadata_object-Ends env (env.group_metadata w.calls) w
      (record w { calls = RdCall.consumer_group_metadata ∷ w.calls }),
)

-- A closed Consumer, with the lock held and nothing more or less owned.
pub record IsClosed (w u : World) : Type 0 where
  pub rk : u.rk ≡ false
  pub rkqu : u.rkqu ≡ false
  pub gil : u.gil ≡ true
  pub tls : u.tls ≡ false
  pub owns : Owns w u

drop_queue-Inside :
    (w u : World) → Inside true 0 w u → Post (λ _ v. Inside false 0 w v) (drop_queue u)
drop_queue-Inside w u h =
    subst (Post (λ _ v. Inside false 0 w v)) (sym (dropped u h.rkqu)) (ground arith)
  where
    dropped :
        (u : World)
        → u.rkqu ≡ true
        → drop_queue u ≡ (ok tt, record u { rkqu = false; calls = RdCall.queue_destroy ∷ u.calls })
    dropped u e = ground arith

abbrev Closes : World → Result Object × World → Type 0
Closes w r = Survives r.0 × IsClosed w r.1

-- close() behind rd_kafka_destroy.
abbrev unset : Env → M Object
unset env = modify (λ w. record w { rk = false }) >> (CallState.finish env >>= close_end)

unset-Closes : (env : Env) (w u : World) → Inside false 0 w u → Closes w (unset env u)
unset-Closes env w u h = elim (Option-cases (env.signal u.calls)) [
  | inl e ↦
      subst (λ r. Closes w (bind r close_end)) (sym (finish_quiet env v h.gil e))
        (tail (not (ltb 0 u.crashed)) (record v { tls = false; gil = true }) (ground arith))
  | inr (k, e) ↦
      subst (λ r. Closes w (bind r close_end)) (sym (finish_signal env v k h.gil e))
        (tail false (record v { tls = false; gil = true; error = some (application k) })
          (ground arith))
]
  where
    v : World
    v = record u { rk = false }

    tail : (fine : Bool) (x : World) → IsClosed w x → Closes w (close_end fine x)
    tail true x c = ((λ e. cc), c)
    tail false x c = ((λ e. cc), c)

-- A rule as for `Ends`.
then-Closes :
    (Q : World → Type 0) (w : World) (m : M (Unit {0})) (k : M Object) (u : World)
    → Post (λ _ v. Q v) (m u)
    → ((v : World) → Q v → Closes w (k v))
    → Closes w ((m >> k) u)
then-Closes Q w m k u hm hk = go (m u) hm
  where
    go : (r : Result (Unit {0}) × World) → Post (λ _ v. Q v) r → Closes w (bind r (λ _. k))
    go (ok a, v) q = hk v q
    go (null, v) q = absurd q
    go (fault, v) q = absurd q

-- close() of an open Consumer comes to its end, by a value or by the exception of a signal or a
-- callback, whatever callbacks are served meanwhile; then the Consumer is closed, its
-- queue is gone, the lock is held and nothing more or less is owned.
pub close-IsClosed :
    (env : Env) (w : World)
    → Behaves env
    → IsReady w
    → Survives (close env w).0 × IsClosed w (close env w).1
unfolding close
close-IsClosed env w b h =
    opened (λ x. Closes w x) w h.rk
      (then-Closes (λ u. Inside true 0 w u) w CallState.begin
        (call_serving env RdCall.consumer_close
          >> (drop_queue >> (call_serving env RdCall.destroy >> unset env)))
        w (begin-Inside w h)
        λ u i.
          then-Closes (λ u. Inside true 0 w u) w (call_serving env RdCall.consumer_close)
            (drop_queue >> (call_serving env RdCall.destroy >> unset env)) u
            (call_serving-Inside env RdCall.consumer_close true w u b i)
            λ v j.
              then-Closes (λ u. Inside false 0 w u) w drop_queue
                (call_serving env RdCall.destroy >> unset env) v (drop_queue-Inside w v j)
                λ x k.
                  then-Closes (λ u. Inside false 0 w u) w (call_serving env RdCall.destroy)
                    (unset env) x (call_serving-Inside env RdCall.destroy false w x b k)
                    (λ y l. unset-Closes env w y l))
  where
    rest : M Object
    rest =
        CallState.begin
        >> (call_serving env RdCall.consumer_close
            >> (drop_queue >> (call_serving env RdCall.destroy >> unset env)))

    opened :
        (P : Result Object × World → Type 0) (w : World)
        → w.rk ≡ true
        → P (rest w)
        → P ((require_not_closed >> rest) w)
    opened P w e p = subst P (sym (passed w e)) p
      where
        passed : (w : World) → w.rk ≡ true → (require_not_closed >> rest) w ≡ rest w
        passed w e = rw e

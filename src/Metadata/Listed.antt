-- ===== src/Metadata/Listed.antt =====
-- list_topics on every path.
use confluent_kafka_python.Base.{
  ℕ, suc, ◌≡◌, refl, sym, subst, ◌⊎◌, inl, inr, Bool, true, false, Option, none, some, ◌∷◌, ◌++◌,
  if◌then◌else◌, Option-cases, ◌≢◌, arith,
}
use confluent_kafka_python.Base.Int.{ℤ, pos, eqb_ℤ}
use confluent_kafka_python.Base.Text.{Text, codes}
use confluent_kafka_python.Object.{Object, Exception, application, runtime_error}
use confluent_kafka_python.World.{
  World, Env, RdCall, CMetadata, M, Result, ok, null, fault, parsed, pure, raise, return_null, when,
  kafka_failure, ◌>>=◌, ◌>>◌,
}
use confluent_kafka_python.World.Quiet.{bind, Quiet}
use confluent_kafka_python.CallState
use confluent_kafka_python.Format.{timeout_ms, Seconds, default_seconds}
use confluent_kafka_python.Consumer.Offsets.{or_else}
use confluent_kafka_python.Consumer.Balance.{Owns}
use confluent_kafka_python.Consumer.Balance.Blocking.{finish_quiet, finish_signal}
use confluent_kafka_python.Admin.Accounts.{IsOpen, begin_lem}
use confluent_kafka_python.Metadata.{
  get_metadata, destroy_metadata, destroy_topic, own_topic, metadata_result, release, finally,
  list_topics, metadata_to_py,
}
use confluent_kafka_python.Metadata.Converted.{metadata_to_py-IsQuiet}

abbrev pub IsMetadata : RdCall → Type 0
IsMetadata (RdCall.metadata topic timeout) = Unit
IsMetadata _ = ⊥

-- An object or an exception; an open client with the lock held; and nothing more or less owned.
pub record Lists (w : World) (r : Result Object × World) : Type 0 where
  pub outcome :
      ((o : Object) × (r.0 ≡ ok o)) ⊎ ((r.0 ≡ null) × ((e : Exception) × (r.1.error ≡ some e)))
  pub owns : Owns w r.1
  pub next_msgstate : r.1.next_msgstate ≡ w.next_msgstate
  pub rkqu : r.1.rkqu ≡ w.rkqu
  pub called : (r.1.calls ≡ w.calls) ⊎ ((c : RdCall) × IsMetadata c × (r.1.calls ≡ c ∷ w.calls))
  pub open_client : IsOpen r.1

abbrev topics_of : Option Text → ℕ → ℕ
topics_of none n = n
topics_of (some t) n = suc n

abbrev with_topic : Option Text → World → World
with_topic topic w = record w { held = record w.held { topics = topics_of topic w.held.topics } }

abbrev Owned : Option Text → World → Result (Unit {0}) × World → Type 0
Owned topic w (ok a, u) = u ≡ with_topic topic w
Owned topic w (null, u) = (e : Exception) × (u ≡ record w { error = some e })
Owned topic w (fault, u) = ⊥

own_topic-Owned :
    (env : Env) (topic : Option Text) (w : World)
    → w.rk ≡ true
    → Owned topic w (own_topic env topic w)
unfolding own_topic
own_topic-Owned env none w h = refl
own_topic-Owned env (some t) w h =
    subst (λ b. Owned (some t) w (tested b)) (sym h) (found (env.topic_new w.calls t))
  where
    made : Bool → Result (Unit {0}) × World
    made b = elim b [
      | false ↦ (null, record w { error = some (runtime_error "Unable to create topic object") })
      | true ↦ (ok tt, with_topic (some t) w)
    ]

    tested : Bool → Result (Unit {0}) × World
    tested b = elim b [ false ↦ (fault, w) | true ↦ made (env.topic_new w.calls t) ]

    found : (b : Bool) → Owned (some t) w (made b)
    found true = refl
    found false = (_, refl)

-- Behind the call: the lock is held again, and the topic and the metadata are owned.
abbrev behind : Option Text → Bool → RdCall → Option Exception → World → World
behind topic b c x w = record w {
  error = x;
  gil = true;
  saved = true;
  crashed = 0;
  tls = false;
  calls = c ∷ w.calls;
  held = record w.held {
    topics = topics_of topic w.held.topics;
    metadata = if b then suc w.held.metadata else w.held.metadata;
  };
}

abbrev done : RdCall → Option Exception → World → World
done c x w = record w {
  error = x;
  gil = true;
  saved = true;
  crashed = 0;
  tls = false;
  calls = c ∷ w.calls;
}

abbrev releases : Option Text → Bool → M (Unit {0})
releases topic b = when b destroy_metadata >> elim topic [ none ↦ pure tt | some t ↦ destroy_topic ]

releases_lem :
    (topic : Option Text) (b : Bool) (c : RdCall) (x : Option Exception) (w : World)
    → releases topic b (behind topic b c x w) ≡ (ok tt, done c x w)
releases_lem none true c x w = refl
releases_lem none false c x w = refl
releases_lem (some t) true c x w = refl
releases_lem (some t) false c x w = refl

-- The label `end` behind what precedes it.
ended :
    (topic : Option Text) (b : Bool) (c : RdCall) (y : Option Exception) (w : World) (m : M Object)
    → w.rk ≡ true
    → IsMetadata c
    → Quiet (behind topic b c y w) (m (behind topic b c y w))
    → Lists w (finally m (releases topic b) (behind topic b c y w))
ended topic b c y w m h k q = go (m (behind topic b c y w)) q
  where
    closing : Result Object × World → Result Object × World
    closing r = elim r.0 [
      | ok a ↦ (releases topic b >> pure a) r.1
      | null ↦ (releases topic b >> return_null) r.1
      | fault ↦ (fault, r.1)
    ]

    opened : (x : Option Exception) → IsOpen (done c x w)
    opened x = record { rk = h; gil = refl; tls = refl }

    go : (r : Result Object × World) → Quiet (behind topic b c y w) r → Lists w (closing r)
    go (ok a, u) (x, e) =
        subst (λ u. Lists w (bind (releases topic b u) (λ _. pure a))) (sym e)
          (subst (λ r. Lists w (bind r (λ _. pure a))) (sym (releases_lem topic b c x w))
            (record {
              outcome = inl (a, refl);
              owns = record {
                lists = refl;
                messages = refl;
                lib_errors = refl;
                metadatas = refl;
                headers = refl;
                msgstates = refl;
                held = refl;
              };
              next_msgstate = refl;
              rkqu = refl;
              called = inr (c, k, refl);
              open_client = opened x;
            }))
    go (null, u) (x, e) =
        subst (λ u. Lists w (bind (releases topic b u) (λ _. return_null))) (sym e)
          (subst (λ r. Lists w (bind r (λ _. return_null)))
            (sym (releases_lem topic b c (some x) w))
            (record {
              outcome = inr (refl, (x, refl));
              owns = record {
                lists = refl;
                messages = refl;
                lib_errors = refl;
                metadatas = refl;
                headers = refl;
                msgstates = refl;
                held = refl;
              };
              next_msgstate = refl;
              rkqu = refl;
              called = inr (c, k, refl);
              open_client = opened (some x);
            }))
    go (fault, u) k = absurd k

-- list_topics on arguments that parse and an open client with the lock held, where
-- confluent_kafka.admin can be imported: it gives an object or raises, and on every path the topic and
-- the metadata that it owned are destroyed once; the client is open with the lock held.
pub list_topics-Lists :
    (env : Env) (topic : Option Text) (timeout : Option Seconds) (w : World)
    → env.imports (codes "confluent_kafka.admin") ≡ true
    → IsOpen w
    → Lists w (list_topics env (parsed (topic, timeout)) w)
unfolding list_topics
list_topics-Lists env topic timeout w i h =
    go (own_topic env topic w) (own_topic-Owned env topic w h.rk)
  where
    c : RdCall
    c = RdCall.metadata topic (timeout_ms (or_else timeout default_seconds))

    got : ℤ × CMetadata
    got = env.metadata w.calls c

    inner : Bool → M Object
    inner b = elim b [
      | false ↦
          raise (kafka_failure env got.0 (codes "Failed to get metadata: " ++ env.err2str got.0))
      | true ↦ metadata_to_py env got.1
    ]

    by_fine : Bool → Bool → M Object
    by_fine b fine = elim fine [ false ↦ return_null | true ↦ inner b ]

    inner-Quiet : (b : Bool) (v : World) → Quiet v (inner b v)
    inner-Quiet true v = metadata_to_py-IsQuiet env got.1 i v
    inner-Quiet false v = (_, refl)

    -- Inside the call.
    calling : Bool → World
    calling b = record (behind topic b c w.error w) { gil = false; tls = true }

    rest : Bool → World → Result Object × World
    rest b v = bind (CallState.finish env v) (λ fine. finally (by_fine b fine) (releases topic b))

    finished : (b : Bool) → Lists w (rest b (calling b))
    finished b = elim (Option-cases (env.signal (c ∷ w.calls))) [
      | inl e ↦
          subst (λ r. Lists w (bind r (λ fine. finally (by_fine b fine) (releases topic b))))
            (sym (finish_quiet env (calling b) refl e))
            (ended topic b c w.error w (inner b) h.rk tt
              (inner-Quiet b (behind topic b c w.error w)))
      | inr (k, e) ↦
          subst (λ r. Lists w (bind r (λ fine. finally (by_fine b fine) (releases topic b))))
            (sym (finish_signal env (calling b) k refl e))
            (ended topic b c (some (application k)) w return_null h.rk tt (application k, refl))
    ]

    after : ℤ × CMetadata → M Object
    after r =
        CallState.finish env >>= λ fine. finally (metadata_result env fine r) (release topic r.0)

    called : M Object
    called = get_metadata env c >>= after

    begun : World
    begun = record (with_topic topic w) { gil = false; saved = true; crashed = 0; tls = true }

    by_client : Bool → Result (ℤ × CMetadata) × World
    by_client b = elim b [ false ↦ (fault, begun) | true ↦ (ok got, calling (eqb_ℤ got.0 (pos 0))) ]

    go :
        (r : Result (Unit {0}) × World)
        → Owned topic w r
        → Lists w (bind r (λ _. CallState.begin >> called))
    go (ok a, u) e =
        subst (λ u. Lists w ((CallState.begin >> called) u)) (sym e)
          (subst (λ r. Lists w (bind r (λ _. called))) (sym (begin_lem (with_topic topic w) h.gil))
            (subst (λ b. Lists w (bind (by_client b) after)) (sym h.rk)
              (finished (eqb_ℤ got.0 (pos 0)))))
    go (null, u) (x, e) =
        subst (λ u. Lists w (null, u)) (sym e)
          (record {
            outcome = inr (refl, (x, refl));
            owns = record {
              lists = refl;
              messages = refl;
              lib_errors = refl;
              metadatas = refl;
              headers = refl;
              msgstates = refl;
              held = refl;
            };
            next_msgstate = refl;
            rkqu = refl;
            called = inl refl;
            open_client = record { rk = h.rk; gil = h.gil; tls = h.tls };
          })
    go (fault, u) k = absurd k

pub Lists-survives : (w : World) (r : Result Object × World) → Lists w r → r.0 ≢ fault
Lists-survives w r l = go r.0 l.outcome
  where
    go :
        (x : Result Object)
        → ((o : Object) × (x ≡ ok o)) ⊎ ((x ≡ null) × ((e : Exception) × (r.1.error ≡ some e)))
        → x ≢ fault
    go x (inl (o, e)) = λ f. absurd (ground (arith, e, f))
    go x (inr (e, k)) = λ f. absurd (ground (arith, e, f))

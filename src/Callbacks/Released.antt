-- ===== src/Callbacks/Released.antt =====
-- The frame of every trampoline: called while the lock is released, it takes the lock, and releases
-- it again behind a body that completes.
use confluent_kafka_python.Base.{◌≡◌, refl, sym, subst, true, false, arith}
use confluent_kafka_python.World.{World, gets, ◌>>=◌, M, Result, ok, null, fault, ◌>>◌}
use confluent_kafka_python.World.Laws.{Stays, Stays-refl, Completes, Completes->>=, Returns}
use confluent_kafka_python.CallState
use confluent_kafka_python.Consumer.Assignment.Keeps.{IsHeld, IsHeld-stable}

-- Inside a blocking call on an open client: the lock is released and the CallState registered.
abbrev pub IsReleased : World → Type 0
IsReleased w = (w.rk ≡ true) × (w.gil ≡ false) × (w.tls ≡ true) × (w.saved ≡ true)

pub IsReleased-stable : (u v : World) → Stays u v → IsReleased u → IsReleased v
IsReleased-stable u v s h = ground arith

abbrev pub called : World → World
called w = record w { gil = true; saved = false }

get_lem : (w : World) → IsReleased w → CallState.get w ≡ (ok tt, called w)
unfolding CallState.get
get_lem w p = ground arith

resume_lem :
    (w v : World)
    → IsReleased w
    → Stays (called w) v
    → Returns (CallState.resume v).0 × Stays w (CallState.resume v).1
unfolding CallState.resume
resume_lem w v p s =
    subst (λ r. Returns r.0 × Stays w r.1) (sym (resumed s.saved s.gil)) (tt, ground arith)
  where
    resumed :
        v.saved ≡ false
        → v.gil ≡ true
        → CallState.resume v ≡ (ok tt, record v { gil = false; saved = true })
    resumed a b = ground arith

abbrev bind : Result (Unit {0}) × World → M (Unit {0}) → Result (Unit {0}) × World
bind r k = elim r.0 [ ok _ ↦ k r.1 | null ↦ (null, r.1) | fault ↦ (fault, r.1) ]

pub within-Completes :
    (body : M (Unit {0})) → Completes IsHeld body → Completes IsReleased (CallState.within body)
within-Completes body h w p =
    subst
      (λ r.
        Returns (bind r (body >> CallState.resume)).0
        × Stays w (bind r (body >> CallState.resume)).1)
      (sym (get_lem w p)) (go (body (called w)) (h (called w) (p.0, refl)))
  where
    go :
        (r : Result (Unit {0}) × World)
        → Returns r.0 × Stays (called w) r.1
        → Returns (bind r CallState.resume).0 × Stays w (bind r CallState.resume).1
    go (ok a, w') k = resume_lem w w' p k.1
    go (null, w') k = absurd k.0
    go (fault, w') k = absurd k.0

pub gets-Completes :
    {A B : Type 0} (f : World → A) (k : A → M B)
    → ((a : A) → Completes IsHeld (k a))
    → Completes IsHeld (gets f >>= k)
gets-Completes f k h = Completes->>= IsHeld IsHeld-stable (gets f) k (λ w p. (tt, Stays-refl w)) h

-- An action before another, where the first leaves alone what `Stays` lists.
pub quiet-Completes :
    {A B : Type 0} (m : M A) (k : A → M B)
    → ((w : World) → Returns (m w).0 × Stays w (m w).1)
    → ((a : A) → Completes IsHeld (k a))
    → Completes IsHeld (m >>= k)
quiet-Completes m k s h = Completes->>= IsHeld IsHeld-stable m k (λ w p. s w) h

-- The state behind a trampoline whose body returns.
pub within_lem :
    (m : M (Unit {0})) (w v : World)
    → IsReleased w
    → m (called w) ≡ (ok tt, v)
    → v.saved ≡ false
    → v.gil ≡ true
    → CallState.within m w ≡ (ok tt, record v { gil = false; saved = true })
unfolding CallState.resume
within_lem m w v p e a b =
    subst (λ r. bind r (m >> CallState.resume) ≡ done) (sym (get_lem w p))
      (subst (λ r. bind r CallState.resume ≡ done) (sym e) (ground arith))
  where
    done : Result (Unit {0}) × World
    done = (ok tt, record v { gil = false; saved = true })

-- ===== src/World/Laws.antt =====
-- What an action leaves alone, and rules to prove it of an action from its parts.
use confluent_kafka_python.Base.{◌≡◌, refl, ◌≢◌, arith, List, [], ◌∷◌}
use confluent_kafka_python.World.Library.{RdCall}
use confluent_kafka_python.World.Monad.{World, M, Result, ok, null, fault, ◌>>=◌}

-- The calls of librdkafka so far, each with those before it, but for those that callbacks make of
-- assign and yield.
abbrev pub marks : List RdCall → List (List RdCall)
marks [] = []
marks (RdCall.assign parts ∷ cs) = marks cs
marks (RdCall.yield ∷ cs) = marks cs
marks (c ∷ cs) = (c ∷ cs) ∷ marks cs

-- The lock, the CallState's registration, the client's pointers and all that is owned are as before,
-- and no call of librdkafka was made but of assign and yield.
pub record Stays (w w' : World) : Type 0 where
  pub gil : w'.gil ≡ w.gil
  pub tls : w'.tls ≡ w.tls
  pub saved : w'.saved ≡ w.saved
  pub rk : w'.rk ≡ w.rk
  pub rkqu : w'.rkqu ≡ w.rkqu
  pub lists : w'.lists ≡ w.lists
  pub messages : w'.messages ≡ w.messages
  pub lib_errors : w'.lib_errors ≡ w.lib_errors
  pub metadatas : w'.metadatas ≡ w.metadatas
  pub headers : w'.headers ≡ w.headers
  pub msgstates : w'.msgstates ≡ w.msgstates
  pub next_msgstate : w'.next_msgstate ≡ w.next_msgstate
  pub held : w'.held ≡ w.held
  pub marked : marks w'.calls ≡ marks w.calls

pub Stays-refl : (w : World) → Stays w w
Stays-refl w = ground arith

pub Stays-trans : {u v w : World} → Stays u v → Stays v w → Stays u w
Stays-trans h k = ground arith

abbrev pub Survives : {A : Type 0} → Result A → Type 0
Survives r = r ≢ fault

-- From every state that `P` describes the action does not end the process, and leaves alone what
-- `Stays` lists.
abbrev pub Keeps : {A : Type 0} → (World → Type 0) → M A → Type 0
Keeps P m = (w : World) → P w → Survives (m w).0 × Stays w (m w).1

module _ {A B : Type 0} (P : World → Type 0) (stable : (u v : World) → Stays u v → P u → P v) where
  pub Keeps->>= :
      (m : M A) (f : A → M B) → Keeps P m → ((a : A) → Keeps P (f a)) → Keeps P (m >>= f)
  Keeps->>= m f hm hf w p = go (m w) (hm w p)
    where
      go :
          (r : Result A × World)
          → Survives r.0 × Stays w r.1
          → let x : Result B × World = elim r.0 [
            | ok a ↦ f a r.1
            | null ↦ (null, r.1)
            | fault ↦ (fault, r.1)
          ] in
            Survives x.0 × Stays w x.1
      go (ok a, w') h = let k = hf a w' (stable w w' h.1 p) in (k.0, Stays-trans h.1 k.1)
      go (null, w') h = (λ e. cc, h.1)
      go (fault, w') h = absurd (h.0 refl)

abbrev pub Returns : {A : Type 0} → Result A → Type 0
Returns (ok _) = Unit
Returns null = ⊥
Returns fault = ⊥

-- The same of an action that always comes to its end.
abbrev pub Completes : {A : Type 0} → (World → Type 0) → M A → Type 0
Completes P m = (w : World) → P w → Returns (m w).0 × Stays w (m w).1

module _ {A B : Type 0} (P : World → Type 0) (stable : (u v : World) → Stays u v → P u → P v) where
  pub Completes->>= :
      (m : M A) (f : A → M B)
      → Completes P m
      → ((a : A) → Completes P (f a))
      → Completes P (m >>= f)
  Completes->>= m f hm hf w p = go (m w) (hm w p)
    where
      go :
          (r : Result A × World)
          → Returns r.0 × Stays w r.1
          → let x : Result B × World = elim r.0 [
            | ok a ↦ f a r.1
            | null ↦ (null, r.1)
            | fault ↦ (fault, r.1)
          ] in
            Returns x.0 × Stays w x.1
      go (ok a, w') h = let k = hf a w' (stable w w' h.1 p) in (k.0, Stays-trans h.1 k.1)
      go (null, w') h = absurd h.0
      go (fault, w') h = absurd h.0

-- A reflexive and transitive relation between the state before an action and the state after it.
module _ (R : World → World → Type 0) (R-trans : (u v w : World) → R u v → R v w → R u w) where
  abbrev pub Moves : {A : Type 0} → M A → Type 0
  Moves m = (w : World) → R w (m w).1

  pub Moves->>= :
      {A B : Type 0} (m : M A) (f : A → M B) → Moves m → ((a : A) → Moves (f a)) → Moves (m >>= f)
  Moves->>= {A} {B} m f hm hf w = go (m w) (hm w)
    where
      go :
          (r : Result A × World)
          → R w r.1
          → let x : Result B × World = elim r.0 [
            | ok a ↦ f a r.1
            | null ↦ (null, r.1)
            | fault ↦ (fault, r.1)
          ] in
            R w x.1
      go (ok a, w') h = R-trans w w' _ h (hf a w')
      go (null, w') h = h
      go (fault, w') h = h

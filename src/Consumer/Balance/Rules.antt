-- ===== src/Consumer/Balance/Rules.antt =====
-- Rules for IsSafe: sequences, and actions that own a list in between.
use confluent_kafka_python.Base.{suc, ◌≡◌, refl, sym, subst, inl, inr, true, List, ◌∷◌, arith}
use Prim.Native.String.{String}
use confluent_kafka_python.Base.Int.{ℤ}
use confluent_kafka_python.Object.{Object}
use confluent_kafka_python.World.{
  World, Env, CPart, RdCall, M, Result, ok, null, fault, ◌>>=◌, allow_threads, call_code,
}
use confluent_kafka_python.World.Laws.{Survives}
use confluent_kafka_python.TopicPartition.Lists.{py_to_c_parts}
use confluent_kafka_python.Consumer.Assignment.{require_open}
use confluent_kafka_python.Consumer.Offsets.{filled_list, query_list}
use confluent_kafka_python.Consumer.Balance.{IsReady, Owns, Owns-trans, IsSafe, py_to_c_parts_cases}

-- `IsSafe` at one state and one outcome.
abbrev pub Ends : {A : Type 0} → World → Result A × World → Type 0
Ends w r = Survives r.0 × IsReady r.1 × Owns w r.1

module _ {A B : Type 0} where
  abbrev pub bind : Result A × World → (A → M B) → Result B × World
  bind r k = elim r.0 [ ok a ↦ k a r.1 | null ↦ (null, r.1) | fault ↦ (fault, r.1) ]

  pub IsSafe->>= : (m : M A) (k : A → M B) → IsSafe m → ((a : A) → IsSafe (k a)) → IsSafe (m >>= k)
  IsSafe->>= m k hm hk w h = go (m w) (hm w h)
    where
      go : (r : Result A × World) → Ends w r → Ends w (bind r k)
      go (ok a, u) e = let f = hk a u e.1 in (f.0, f.1, Owns-trans e.2 f.2)
      go (null, u) e = (λ x. cc, e.1, e.2)
      go (fault, u) e = absurd (e.0 refl)

-- A ready state that owns one more list.
pub record HasList (w u : World) : Type 0 where
  pub ready : IsReady u
  pub lists : u.lists ≡ suc w.lists
  pub messages : u.messages ≡ w.messages
  pub lib_errors : u.lib_errors ≡ w.lib_errors
  pub metadatas : u.metadatas ≡ w.metadatas
  pub headers : u.headers ≡ w.headers
  pub msgstates : u.msgstates ≡ w.msgstates
  pub held : u.held ≡ w.held

abbrev pub Acquired : {A : Type 0} → World → Result A × World → Type 0
Acquired w (ok _, u) = HasList w u
Acquired w (null, u) = IsReady u × Owns w u
Acquired w (fault, u) = ⊥

-- The action owns a list when it returns, and nothing new when it raises.
abbrev pub Acquires : {A : Type 0} → M A → Type 0
Acquires m = (w : World) → IsReady w → Acquired w (m w)

module _ {A B : Type 0} where
  pub Acquires->>= :
      (m : M A) (k : A → M B)
      → Acquires m
      → ((a : A) (w u : World) → HasList w u → Ends w (k a u))
      → IsSafe (m >>= k)
  Acquires->>= m k hm hk w h = go (m w) (hm w h)
    where
      go : (r : Result A × World) → Acquired w r → Ends w (bind r k)
      go (ok a, u) e = hk a w u e
      go (null, u) e = (λ x. cc, e.0, e.1)
      go (fault, u) e = absurd e

pub py_to_c_parts-Acquires : (o : Object) → Acquires (py_to_c_parts o)
py_to_c_parts-Acquires o w h = elim (py_to_c_parts_cases o w) [
  | inl (parts, e) ↦ subst (Acquired w) (sym e) (ground arith)
  | inr (x, e) ↦ subst (Acquired w) (sym e) (ground arith)
]

pub require_open-IsSafe : IsSafe require_open
require_open-IsSafe w h = ground arith

pub allow_threads_lem :
    (env : Env) (c : RdCall) (u : World)
    → IsReady u
    → allow_threads (call_code env c) u
      ≡ (ok (env.code u.calls c), record u { gil = true; calls = c ∷ u.calls })
allow_threads_lem env c u h = ground arith

pub filled_list-Ends :
    (env : Env) (err : ℤ) (prefix : String) (parts : List CPart) (w u : World)
    → HasList w u
    → Ends w (filled_list env err prefix parts u)
filled_list-Ends env err prefix parts w u h = ground arith

pub query_list-Ends :
    (env : Env) (c : RdCall) (prefix : String) (w u : World)
    → HasList w u
    → Ends w (query_list env c prefix u)
query_list-Ends env c prefix w u h =
    subst (λ r. Ends w (bind r (λ err. filled_list env err prefix (env.parts u.calls c))))
      (sym (allow_threads_lem env c u h.ready))
      (filled_list-Ends env (env.code u.calls c) prefix (env.parts u.calls c) w
        (record u { gil = true; calls = c ∷ u.calls }) (ground arith))

-- ===== src/Consumer/Balance.antt =====
-- What a Consumer's method leaves behind: the lock, the open client, and nothing owned.
pub mod Rules
pub mod Queries
pub mod Commits
pub mod Blocking
pub mod Fetches
pub mod Ending
use confluent_kafka_python.Base.{
  ℕ, suc, ◌≡◌, ◌≢◌, refl, ◌⊎◌, inl, inr, Bool, true, false, Option, none, some, List, arith,
  Option-cases,
}
use confluent_kafka_python.Base.Int.{pos}
use confluent_kafka_python.Base.Text.{codes}
use confluent_kafka_python.Object.{Object, list, Exception, type_error}
use confluent_kafka_python.World.{World, Env, CPart, RdCall, M, Result, ok, null, fault}
use confluent_kafka_python.World.Laws.{Survives}
use confluent_kafka_python.TopicPartition.Lists.{collect, py_to_c_parts}
use confluent_kafka_python.Callbacks.Served.{AreServable}

-- A method is called with the lock held, outside any blocking call, on an open Consumer.
pub record IsReady (w : World) : Type 0 where
  pub rk : w.rk ≡ true
  pub rkqu : w.rkqu ≡ true
  pub gil : w.gil ≡ true
  pub tls : w.tls ≡ false

-- Nothing that the extension owns is more or less than before.
pub record Owns (w w' : World) : Type 0 where
  pub lists : w'.lists ≡ w.lists
  pub messages : w'.messages ≡ w.messages
  pub lib_errors : w'.lib_errors ≡ w.lib_errors
  pub metadatas : w'.metadatas ≡ w.metadatas
  pub headers : w'.headers ≡ w.headers
  pub msgstates : w'.msgstates ≡ w.msgstates
  pub held : w'.held ≡ w.held

pub Owns-trans : {u v w : World} → Owns u v → Owns v w → Owns u w
Owns-trans h k = ground arith

-- From a ready state the method ends, by a value or an exception, in a ready state that owns the
-- same.
abbrev pub IsSafe : {A : Type 0} → M A → Type 0
IsSafe m = (w : World) → IsReady w → Survives (m w).0 × IsReady (m w).1 × Owns w (m w).1

-- What librdkafka promises: it serves a Consumer no delivery reports, and a synchronous commit that
-- succeeds has reported the committed partitions. And confluent_kafka.admin, which list_topics() uses,
-- can be imported.
pub record Behaves (env : Env) : Type 0 where
  pub servable : (calls : List RdCall) (c : RdCall) → AreServable (env.events calls c)
  pub importable : env.imports (codes "confluent_kafka.admin") ≡ true
  pub reported :
      (calls : List RdCall) (parts : Option (List CPart))
      → env.code calls (RdCall.commit_queue parts false) ≡ pos 0
      → (env.commit_result calls (RdCall.commit_queue parts false)).0 ≡ pos 0
      → (env.commit_result calls (RdCall.commit_queue parts false)).1 ≢ none

pub py_to_c_parts_cases :
    (o : Object) (w : World)
    → ((parts : List CPart) × (py_to_c_parts o w ≡ (ok parts, record w { lists = suc w.lists })))
      ⊎ ((e : Exception) × (py_to_c_parts o w ≡ (null, record w { error = some e })))
unfolding py_to_c_parts
py_to_c_parts_cases (list os) w = elim (Option-cases (collect os)) [
  | inl e ↦ inr (type_error "expected cimpl.TopicPartition", ground arith)
  | inr (parts, e) ↦ inl (parts, ground arith)
]
py_to_c_parts_cases _ w = inr (type_error "requires list of TopicPartition", refl)

-- ===== src/Consumer/Offsets.antt =====
-- Consumer_commit, Consumer_store_offsets, Consumer_committed, Consumer_position and
-- Consumer_offsets_for_times of confluent_kafka/src/Consumer.c.
use Prim.Native.String.{String}
use confluent_kafka_python.Base.{
  Bool, true, false, ◌&&◌, Option, none, some, List, [], ◌∷◌, if◌then◌else◌,
}
use confluent_kafka_python.Base.Int.{ℤ, pos, eqb_ℤ, ◌+ℤ◌}
use confluent_kafka_python.Object.{Object, message, none_object, type_error, value_error}
use confluent_kafka_python.TopicPartition.Lists.{py_to_c_parts, c_parts_to_py}
use confluent_kafka_python.World.{
  Env, RdCall, CPart, M, Parsed, parse, pure, raise, raise_if, crash_process, gets, new_list,
  destroy_list, save_thread, restore_thread, allow_threads, call_code, ◌>>=◌, ◌>>◌,
}
use confluent_kafka_python.Format.{failure, timeout_ms, Seconds, default_seconds}
use confluent_kafka_python.Consumer.Assignment.{require_open}

abbrev pub is_some : {A : Type 0} → Option A → Bool
is_some none = false
is_some (some _) = true

abbrev pub or_else : {A : Type 0} → Option A → A → A
or_else none d = d
or_else (some a) d = a

-- The list for a message: its topic and partition, and the offset behind it. A Message with no
-- topic would be read through a NULL pointer.
unfoldable pub message_list : Object → M (List CPart)
unfolding ◌+ℤ◌
message_list (message none partition offset) = new_list >> crash_process
message_list (message (some topic) partition offset) =
    new_list
    >> pure (
        record {
          topic = topic;
          partition = partition;
          offset = offset +ℤ pos 1;
          metadata = none;
          opaque = none;
          err = pos 0;
        }
        ∷ [])
message_list other = raise (type_error "expected cimpl.Message")

-- The offsets to commit: those given, or a message's, or (`none`) all that are stored.
unfoldable pub commit_list : Option Object → Option Object → M (Option (List CPart))
unfolding message_list py_to_c_parts
commit_list msg (some offsets) = do parts ← py_to_c_parts offsets; pure (some parts)
commit_list (some msg) none = do parts ← message_list msg; pure (some parts)
commit_list none none = pure none

abbrev pub free_list : Option (List CPart) → M (Unit {0})
free_list none = pure tt
free_list (some _) = destroy_list

abbrev pub exclusive : Option Object → Option Object → M (Unit {0})
exclusive msg offsets =
    raise_if (is_some msg && is_some offsets)
      (value_error "message and offsets are mutually exclusive")

abbrev pub commit_async : Env → Option (List CPart) → M Object
commit_async env parts = do
  queue ← gets (λ w. w.rkqu)
  err ← call_code env (RdCall.commit_queue parts queue)
  free_list parts
  failure env err "Commit failed: "
  pure none_object

-- Consumer_offset_commit_return_cb keeps a copy of the list that it is given.
abbrev pub keep_copy : Option (List CPart) → M (Unit {0})
keep_copy none = pure tt
keep_copy (some _) = new_list

-- The end of a synchronous commit: `inner` is what Consumer_offset_commit_return_cb stored.
abbrev pub commit_end : Env → ℤ → ℤ × Option (List CPart) → M Object
commit_end env outer inner =
    let err = if eqb_ℤ inner.0 (pos 0) then outer else inner.0 in
    elim (eqb_ℤ err (pos 0)) [
      | false ↦ do free_list inner.1; failure env err "Commit failed: "; pure none_object
      | true ↦ elim inner.1 [
        | none ↦ crash_process
        | some parts ↦ destroy_list >> pure (c_parts_to_py env.err2str parts)
      ]
    ]

abbrev pub commit_sync : Env → Option (List CPart) → M Object
commit_sync env parts = do
  save_thread
  inner ← gets (λ w. env.commit_result w.calls (RdCall.commit_queue parts false))
  err ← call_code env (RdCall.commit_queue parts false)
  keep_copy inner.1
  free_list parts
  restore_thread
  commit_end env err inner

-- The default is asynchronous.
abbrev pub wants_async : Env → Option Object → Bool
wants_async env none = true
wants_async env (some o) = env.is_true o

abbrev pub commit_parts : Env → Bool → Option (List CPart) → M Object
commit_parts env true parts = commit_async env parts
commit_parts env false parts = commit_sync env parts

-- The arguments are message, offsets and asynchronous (alias async).
unfoldable pub commit : Env → Parsed (Option Object × Option Object × Option Object) → M Object
unfolding commit_list
commit env args = do
  require_open
  a ← parse args
  exclusive a.0 a.1
  commit_list a.0 a.1 >>= commit_parts env (wants_async env a.2)

abbrev pub store_list : Option Object → Option Object → M (List CPart)
store_list msg (some offsets) = py_to_c_parts offsets
store_list (some msg) none = message_list msg
store_list none none = raise (value_error "expected either message or offsets")

abbrev pub store_parts : Env → List CPart → M Object
store_parts env parts = do
  err ← call_code env (RdCall.offsets_store parts)
  destroy_list
  failure env err "StoreOffsets failed: "
  pure none_object

unfoldable pub store_offsets : Env → Parsed (Option Object × Option Object) → M Object
unfolding message_list py_to_c_parts
store_offsets env args = do
  require_open
  a ← parse args
  exclusive a.0 a.1
  store_list a.0 a.1 >>= store_parts env

-- The end of a query that fills in the list that it is given.
abbrev pub filled_list : Env → ℤ → String → List CPart → M Object
filled_list env err prefix parts = do
  destroy_list
  failure env err prefix
  pure (c_parts_to_py env.err2str parts)

abbrev pub query_list : Env → RdCall → String → M Object
query_list env c prefix = do
  parts ← gets (λ w. env.parts w.calls c)
  err ← allow_threads (call_code env c)
  filled_list env err prefix parts

unfoldable pub committed : Env → Parsed (Object × Option Seconds) → M Object
unfolding py_to_c_parts timeout_ms
committed env args = do
  require_open
  a ← parse args
  parts ← py_to_c_parts a.0
  query_list env (RdCall.committed parts (timeout_ms (or_else a.1 default_seconds)))
      "Failed to get committed offsets: "

unfoldable pub position : Env → Parsed Object → M Object
unfolding py_to_c_parts
position env args = do
  require_open
  o ← parse args
  parts ← py_to_c_parts o
  result ← gets (λ w. env.parts w.calls (RdCall.position parts))
  err ← call_code env (RdCall.position parts)
  filled_list env err "Failed to get position: " result

unfoldable pub offsets_for_times : Env → Parsed (Object × Option Seconds) → M Object
unfolding py_to_c_parts timeout_ms
offsets_for_times env args = do
  require_open
  a ← parse args
  parts ← py_to_c_parts a.0
  query_list env (RdCall.offsets_for_times parts (timeout_ms (or_else a.1 default_seconds)))
      "Failed to get offsets: "

-- ===== src/Consumer/Balance/Commits.antt =====
-- commit() and store_offsets().
use confluent_kafka_python.Base.{
  ◌≡◌, ◌≢◌, sym, subst, Bool, true, false, Option, none, some, List, ◌∷◌, arith,
}
use confluent_kafka_python.Base.Int.{ℤ, pos, eqb_ℤ_iff}
use confluent_kafka_python.Object.{Object, message}
use confluent_kafka_python.World.{
  destroy_list, restore_thread, World, CPart, Env, RdCall, M, Result, ok, null, fault, parsed, pure,
  ◌>>=◌, ◌>>◌,
}
use confluent_kafka_python.TopicPartition.Lists.{py_to_c_parts}
use confluent_kafka_python.Consumer.Assignment.{require_open}
use confluent_kafka_python.Consumer.Offsets.{
  keep_copy, commit_end, message_list, commit_list, exclusive, commit_async, commit_sync,
  commit_parts, wants_async, commit, store_list, store_parts, store_offsets,
}
use confluent_kafka_python.Consumer.Balance.{IsReady, IsSafe, Behaves}
use confluent_kafka_python.Consumer.Balance.Rules.{
  bind, Ends, HasList, IsSafe->>=, Acquires, Acquired, Acquires->>=, py_to_c_parts-Acquires,
  require_open-IsSafe,
}

-- A Message has a topic. (An event without one, handed to commit(), would be read through NULL.)
abbrev pub HasTopic : Option Object → Type 0
HasTopic (some (message none partition offset)) = ⊥
HasTopic _ = Unit

message_list-Acquires : (o : Object) → HasTopic (some o) → Acquires (message_list o)
unfolding message_list
message_list-Acquires (message none p k) t w h = absurd t
message_list-Acquires (message (some topic) p k) t w h = ground arith
message_list-Acquires _ t w h = ground arith

commit_async-Ends :
    (env : Env) (parts : List CPart) (w u : World)
    → HasList w u
    → Ends w (commit_async env (some parts) u)
commit_async-Ends env parts w u h = ground arith

-- A synchronous commit of a list, behind the call.
abbrev given : Env → ℤ → ℤ × Option (List CPart) → M Object
given env err inner = do keep_copy inner.1; destroy_list; restore_thread; commit_end env err inner

abbrev behind : RdCall → World → World
behind c w = record w { gil = false; calls = c ∷ w.calls }

given-Ends :
    (env : Env) (c : RdCall) (err : ℤ) (inner : ℤ × Option (List CPart)) (w u : World)
    → (err ≡ pos 0 → inner.0 ≡ pos 0 → inner.1 ≢ none)
    → HasList w u
    → Ends w (given env err inner (behind c u))
given-Ends env c err (e, none) w u b h = ground (arith, eqb_ℤ_iff err (pos 0), eqb_ℤ_iff e (pos 0))
given-Ends env c err (e, some parts) w u b h =
    ground (arith, eqb_ℤ_iff err (pos 0), eqb_ℤ_iff e (pos 0))

given_lem :
    (env : Env) (parts : List CPart) (u : World)
    → u.gil ≡ true
    → u.rk ≡ true
    → let c : RdCall = RdCall.commit_queue (some parts) false in
      commit_sync env (some parts) u
      ≡ given env (env.code u.calls c) (env.commit_result u.calls c) (behind c u)
given_lem env parts u g r = ground arith

commit_sync-Ends :
    (env : Env) (parts : List CPart) (w u : World)
    → Behaves env
    → HasList w u
    → Ends w (commit_sync env (some parts) u)
commit_sync-Ends env parts w u b h =
    subst (Ends w) (sym (given_lem env parts u h.ready.gil h.ready.rk)) (
      given-Ends env c (env.code u.calls c) (env.commit_result u.calls c) w u
        (b.reported u.calls (some parts)) h)
  where
    c : RdCall
    c = RdCall.commit_queue (some parts) false

commit_parts-Ends :
    (env : Env) (async : Bool) (parts : List CPart) (w u : World)
    → Behaves env
    → HasList w u
    → Ends w (commit_parts env async (some parts) u)
commit_parts-Ends env true parts w u b h = commit_async-Ends env parts w u h
commit_parts-Ends env false parts w u b h = commit_sync-Ends env parts w u b h

abbrev stored_call : RdCall
stored_call = RdCall.commit_queue none false

abbrev called : World → World
called w = record w { gil = false; calls = stored_call ∷ w.calls }

-- A synchronous commit of the stored offsets, behind the call.
abbrev synced : Env → ℤ → ℤ × Option (List CPart) → M Object
synced env err inner = do keep_copy inner.1; restore_thread; commit_end env err inner

synced-Ends :
    (env : Env) (err : ℤ) (inner : ℤ × Option (List CPart)) (w : World)
    → (err ≡ pos 0 → inner.0 ≡ pos 0 → inner.1 ≢ none)
    → IsReady w
    → Ends w (synced env err inner (called w))
synced-Ends env err (e, none) w b h = ground (arith, eqb_ℤ_iff err (pos 0), eqb_ℤ_iff e (pos 0))
synced-Ends env err (e, some parts) w b h =
    ground (arith, eqb_ℤ_iff err (pos 0), eqb_ℤ_iff e (pos 0))

commit_sync_lem :
    (env : Env) (w : World)
    → w.gil ≡ true
    → w.rk ≡ true
    → commit_sync env none w
      ≡ synced env (env.code w.calls stored_call) (env.commit_result w.calls stored_call) (called w)
commit_sync_lem env w g r = ground arith

commit_stored-IsSafe :
    (env : Env) (async : Bool) → Behaves env → IsSafe (commit_parts env async none)
commit_stored-IsSafe env true b = λ w h. ground arith
commit_stored-IsSafe env false b = λ w h. subst (Ends w) (sym (commit_sync_lem env w h.gil h.rk)) (
    synced-Ends env (env.code w.calls stored_call) (env.commit_result w.calls stored_call) w
      (b.reported w.calls none) h)

exclusive-IsSafe : (msg offsets : Option Object) → IsSafe (exclusive msg offsets)
exclusive-IsSafe msg offsets w h = ground arith

given-IsSafe :
    (m : M (List CPart)) (k : Option (List CPart) → M Object)
    → Acquires m
    → ((parts : List CPart) (w u : World) → HasList w u → Ends w (k (some parts) u))
    → IsSafe ((m >>= λ parts. pure (some parts)) >>= k)
given-IsSafe m k hm hk w h = go (m w) (hm w h)
  where
    go :
        (r : Result (List CPart) × World)
        → Acquired w r
        → Ends w (bind (bind r (λ parts. pure (some parts))) k)
    go (ok parts, u) e = hk parts w u e
    go (null, u) e = (λ x. cc, e.0, e.1)
    go (fault, u) e = absurd e

commit_rest-IsSafe :
    (env : Env) (msg offsets : Option Object) (async : Bool)
    → HasTopic msg
    → Behaves env
    → IsSafe (commit_list msg offsets >>= commit_parts env async)
unfolding commit_list
commit_rest-IsSafe env msg (some o) async t b =
    given-IsSafe (py_to_c_parts o) (commit_parts env async) (py_to_c_parts-Acquires o)
      (λ parts w u h. commit_parts-Ends env async parts w u b h)
commit_rest-IsSafe env (some m) none async t b =
    given-IsSafe (message_list m) (commit_parts env async) (message_list-Acquires m t)
      (λ parts w u h. commit_parts-Ends env async parts w u b h)
commit_rest-IsSafe env none none async t b = commit_stored-IsSafe env async b

pub commit-IsSafe :
    (env : Env) (msg offsets async : Option Object)
    → HasTopic msg
    → Behaves env
    → IsSafe (commit env (parsed (msg, offsets, async)))
unfolding commit
commit-IsSafe env msg offsets async t b =
    IsSafe->>= require_open (λ _. exclusive msg offsets >>= λ _. rest) require_open-IsSafe
      λ _.
        IsSafe->>= (exclusive msg offsets) (λ _. rest) (exclusive-IsSafe msg offsets)
          (λ _. commit_rest-IsSafe env msg offsets (wants_async env async) t b)
  where
    rest : M Object
    rest = commit_list msg offsets >>= commit_parts env (wants_async env async)

store_parts-Ends :
    (env : Env) (parts : List CPart) (w u : World) → HasList w u → Ends w (store_parts env parts u)
store_parts-Ends env parts w u h = ground arith

store_rest-IsSafe :
    (env : Env) (msg offsets : Option Object)
    → HasTopic msg
    → IsSafe (store_list msg offsets >>= store_parts env)
store_rest-IsSafe env msg (some o) t =
    Acquires->>= (py_to_c_parts o) (store_parts env) (py_to_c_parts-Acquires o)
      (λ parts w u h. store_parts-Ends env parts w u h)
store_rest-IsSafe env (some m) none t =
    Acquires->>= (message_list m) (store_parts env) (message_list-Acquires m t)
      (λ parts w u h. store_parts-Ends env parts w u h)
store_rest-IsSafe env none none t = λ w h. ground arith

pub store_offsets-IsSafe :
    (env : Env) (msg offsets : Option Object)
    → HasTopic msg
    → IsSafe (store_offsets env (parsed (msg, offsets)))
unfolding store_offsets
store_offsets-IsSafe env msg offsets t =
    IsSafe->>= require_open (λ _. exclusive msg offsets >>= λ _. rest) require_open-IsSafe
      λ _.
        IsSafe->>= (exclusive msg offsets) (λ _. rest) (exclusive-IsSafe msg offsets)
          (λ _. store_rest-IsSafe env msg offsets t)
  where
    rest : M Object
    rest = store_list msg offsets >>= store_parts env

-- ===== src/Consumer/Balance/Queries.antt =====
-- Subscription, assignment and the queries on partition lists.
use mathlib.Core.Option
use confluent_kafka_python.Base.{
  ◌≡◌, refl, sym, subst, ap, suc, Bool, Option, none, some, List, [], ◌∷◌, arith,
}
use Prim.Native.String.{String}
use confluent_kafka_python.Object.{Object, Objects, nil, cons, list, topic_partition, type_error}
use confluent_kafka_python.Base.Text.{Text}
use confluent_kafka_python.Headers.{c_string}
use confluent_kafka_python.TopicPartition.Lists.{py_to_c_parts}
use confluent_kafka_python.World.{
  Env, RdCall, CPart, M, Parsed, parsed, rejected, pure, raise, new_list, destroy_list, as_utf8,
  as_utf8_lem, Encodes, ◌>>=◌, ◌>>◌,
}
use confluent_kafka_python.Format.{Seconds, timeout_ms, default_seconds}
use confluent_kafka_python.Consumer.Assignment.{require_open, assign, unassign}
use confluent_kafka_python.Consumer.Subscription.{
  check_callable, c_topics, subscribe_to, subscribe, unsubscribe, assignment, topic_parts,
  topic_part,
}
use confluent_kafka_python.Consumer.Offsets.{
  or_else, query_list, committed, position, offsets_for_times,
}
use confluent_kafka_python.Consumer.Flow.{pause, resume, seek, get_watermark_offsets}
use confluent_kafka_python.Consumer.Balance.{IsSafe, py_to_c_parts_cases}
use confluent_kafka_python.Consumer.Balance.Rules.{
  IsSafe->>=, Acquired, Acquires, Acquires->>=, py_to_c_parts-Acquires, require_open-IsSafe,
  query_list-Ends,
}

pub position-IsSafe : (env : Env) (args : Parsed Object) → IsSafe (position env args)
unfolding position
position-IsSafe env (rejected n) w h = ground arith
position-IsSafe env (parsed o) w h = ground (arith, py_to_c_parts_cases o w)

pub committed-IsSafe :
    (env : Env) (args : Parsed (Object × Option Seconds)) → IsSafe (committed env args)
unfolding committed
committed-IsSafe env (rejected n) = λ w h. ground arith
committed-IsSafe env (parsed (o, t)) = IsSafe->>= require_open _ require_open-IsSafe λ _.
    Acquires->>= (py_to_c_parts o)
      (λ parts.
        query_list env (RdCall.committed parts (timeout_ms (or_else t default_seconds)))
          "Failed to get committed offsets: ")
      (py_to_c_parts-Acquires o)
      (λ parts w u l. query_list-Ends env _ "Failed to get committed offsets: " w u l)

pub offsets_for_times-IsSafe :
    (env : Env) (args : Parsed (Object × Option Seconds)) → IsSafe (offsets_for_times env args)
unfolding offsets_for_times
offsets_for_times-IsSafe env (rejected n) = λ w h. ground arith
offsets_for_times-IsSafe env (parsed (o, t)) = IsSafe->>= require_open _ require_open-IsSafe λ _.
    Acquires->>= (py_to_c_parts o)
      (λ parts.
        query_list env (RdCall.offsets_for_times parts (timeout_ms (or_else t default_seconds)))
          "Failed to get offsets: ")
      (py_to_c_parts-Acquires o)
      (λ parts w u l. query_list-Ends env _ "Failed to get offsets: " w u l)

pub pause-IsSafe : (env : Env) (args : Parsed Object) → IsSafe (pause env args)
unfolding pause
pause-IsSafe env (rejected n) w h = ground arith
pause-IsSafe env (parsed o) w h = ground (arith, py_to_c_parts_cases o w)

pub resume-IsSafe : (env : Env) (args : Parsed Object) → IsSafe (resume env args)
unfolding resume
resume-IsSafe env (rejected n) w h = ground arith
resume-IsSafe env (parsed o) w h = ground (arith, py_to_c_parts_cases o w)

pub assign-IsSafe : (env : Env) (o : Object) → IsSafe (assign env o)
unfolding assign
assign-IsSafe env o w h = ground (arith, py_to_c_parts_cases o w)

pub unassign-IsSafe : (env : Env) → IsSafe (unassign env)
unfolding unassign
unassign-IsSafe env w h = ground arith

pub unsubscribe-IsSafe : (env : Env) → IsSafe (unsubscribe env)
unfolding unsubscribe
unsubscribe-IsSafe env w h = ground arith

pub assignment-IsSafe : (env : Env) → IsSafe (assignment env)
unfolding assignment
assignment-IsSafe env w h = ground arith

pub seek-IsSafe : (env : Env) (args : Parsed Object) → IsSafe (seek env args)
unfolding seek
seek-IsSafe env (rejected n) w h = ground arith
seek-IsSafe env (parsed (topic_partition tp)) w h = ground arith
seek-IsSafe env (parsed _) w h = ground arith

pub get_watermark_offsets-IsSafe :
    (env : Env) (args : Parsed (Object × Option Seconds × Bool))
    → IsSafe (get_watermark_offsets env args)
unfolding get_watermark_offsets
get_watermark_offsets-IsSafe env (rejected n) w h = ground arith
get_watermark_offsets-IsSafe env (parsed (topic_partition tp, t, cached)) w h = ground arith
get_watermark_offsets-IsSafe env (parsed (_, t, cached)) w h = ground arith

check_callable-IsSafe :
    (env : Env) (f : Option Object) (text : String) → IsSafe (check_callable env f text)
check_callable-IsSafe env none text w h = ground arith
check_callable-IsSafe env (some f) text w h = ground arith

topic_parts_lem :
    (env : Env) (os : Objects)
    → Encodes env
    → (r : Option (List CPart)) × (topic_parts env os ≡ pure r)
unfolding topic_parts
topic_parts_lem env nil n = (some [], refl)
topic_parts_lem env (cons o os) n =
    let (rest, e) = topic_parts_lem env os n in go rest e (env.to_str o)
  where
    Answers : M (Option (List CPart)) → Type 0
    Answers m = (r : Option (List CPart)) × (m ≡ pure r)

    go :
        (rest : Option (List CPart))
        → topic_parts env os ≡ pure rest
        → (t : Option Text)
        → Answers (elim t [
          | none ↦ pure none
          | some topic ↦ as_utf8 env topic >>= λ b.
              topic_parts env os >>= λ rest. pure (Option.map (◌∷◌ (topic_part (c_string b))) rest)
        ])
    go rest e none = (none, refl)
    go rest e (some t) =
        as_utf8_lem Answers env t
          (λ b.
            topic_parts env os >>= λ rest. pure (Option.map (◌∷◌ (topic_part (c_string b))) rest))
          n
          (λ b.
            (_, ap (λ m. m >>= λ rest. pure (Option.map (◌∷◌ (topic_part (c_string b))) rest)) e))

c_topics-Acquires : (env : Env) (os : Objects) → Encodes env → Acquires (c_topics env os)
c_topics-Acquires env os n w h =
    let (r, e) = topic_parts_lem env os n in
    subst (λ m. Acquired w ((new_list >> (m >>= chosen)) w)) (sym e) (go r)
  where
    chosen : Option (List CPart) → M (List CPart)
    chosen r = elim r [
      | some parts ↦ pure parts
      | none ↦ destroy_list >> raise (type_error "expected list of unicode strings")
    ]

    go : (r : Option (List CPart)) → Acquired w (chosen r (record w { lists = suc w.lists }))
    go none = ground arith
    go (some parts) = ground arith

pub subscribe-IsSafe :
    (env : Env) (args : Parsed (Object × Option Object × Option Object))
    → Encodes env
    → IsSafe (subscribe env args)
unfolding subscribe
subscribe-IsSafe env (rejected n) t = λ w h. ground arith
subscribe-IsSafe env (parsed (list os, a, r)) n = IsSafe->>= require_open _ require_open-IsSafe λ _.
    IsSafe->>= (check_callable env a "on_assign expects a callable") _
      (check_callable-IsSafe env a _)
      λ _.
        IsSafe->>= (check_callable env r "on_revoke expects a callable") _
          (check_callable-IsSafe env r _)
          λ _.
            Acquires->>= (c_topics env os) (λ topics. subscribe_to env a r topics)
              (c_topics-Acquires env os n) (λ topics w u l. ground arith)
subscribe-IsSafe env (parsed (_, a, r)) n = λ w h. ground arith

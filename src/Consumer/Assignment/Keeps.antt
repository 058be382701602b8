-- ===== src/Consumer/Assignment/Keeps.antt =====
-- assign and unassign own nothing afterwards and leave the lock and the client alone.
use confluent_kafka_python.Base.{◌≡◌, true, arith, Option-cases}
use confluent_kafka_python.Object.{Object, list}
use confluent_kafka_python.World.{World, Env}
use confluent_kafka_python.World.Laws.{Stays, Keeps}
use confluent_kafka_python.TopicPartition.Lists.{py_to_c_parts, collect}
use confluent_kafka_python.Consumer.Assignment.{assign, unassign}

-- Python code that runs on an open client, under the lock.
abbrev pub IsHeld : World → Type 0
IsHeld w = (w.rk ≡ true) × (w.gil ≡ true)

pub IsHeld-stable : (u v : World) → Stays u v → IsHeld u → IsHeld v
IsHeld-stable u v s h = ground arith

pub assign-Keeps : (env : Env) (o : Object) → Keeps IsHeld (assign env o)
unfolding assign py_to_c_parts
assign-Keeps env (list os) w h = ground (arith, Option-cases (collect os))
assign-Keeps env _ w h = ground arith

pub unassign-Keeps : (env : Env) → Keeps IsHeld (unassign env)
unfolding unassign
unassign-Keeps env w h = ground arith

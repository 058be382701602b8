-- ===== src/Consumer/Assignment.antt =====
-- Consumer_assign and Consumer_unassign of confluent_kafka/src/Consumer.c, which rebalance callbacks
-- call too.
pub mod Keeps
use confluent_kafka_python.Base.{ℕ, suc, Bool, true, false, not, none, some, if◌then◌else◌}
use confluent_kafka_python.Base.Int.{ℤ, pos, eqb_ℤ}
use confluent_kafka_python.Base.Text.{Text, codes}
use confluent_kafka_python.Object.{Object, none_object, runtime_error}
use confluent_kafka_python.TopicPartition.Lists.{py_to_c_parts}
use confluent_kafka_python.World.{
  Env, RdCall, M, pure, raise, raise_if, gets, modify, destroy_list, call_code, kafka_failure,
  ◌>>=◌, ◌>>◌,
}
use confluent_kafka_python.Format.{failure}

-- The guard with which a method begins.
abbrev pub require_open : M (Unit {0})
require_open = do raise_if (not (← gets (λ w. w.rk))) (runtime_error "Consumer closed")

abbrev pub count_assign : M (Unit {0})
count_assign = modify (λ w. record w { rebalance_assigned = suc w.rebalance_assigned })

unfoldable pub assign : Env → Object → M Object
assign env tlist = do
  require_open
  c_parts ← py_to_c_parts tlist
  count_assign
  err ← call_code env (RdCall.assign (some c_parts))
  destroy_list
  failure env err "Failed to set assignment: "
  pure none_object

unfoldable pub unassign : Env → M Object
unassign env = do
  require_open
  count_assign
  err ← call_code env (RdCall.assign none)
  failure env err "Failed to remove assignment: "
  pure none_object

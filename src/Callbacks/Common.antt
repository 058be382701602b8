-- ===== src/Callbacks/Common.antt =====
-- error_cb, throttle_cb, stats_cb and log_cb of confluent_kafka/src/confluent_kafka.c.
use confluent_kafka_python.Base.{
  ℕ, Bool, true, false, not, Option, none, some, List, [], ◌∷◌, if◌then◌else◌, ◌==◌, ltb, leb,
  length,
}
use confluent_kafka_python.Base.Int.{ℤ, pos, negsuc, eqb_ℤ}
use confluent_kafka_python.Base.Text.{Text, codes}
use confluent_kafka_python.Object.{
  Object, int, str, kafka_error, throttle_event, type_error, kafka_exception, application,
}
use confluent_kafka_python.KafkaError.{new0, new_fatal}
use confluent_kafka_python.World.{
  Env, RdCall, M, pure, gets, set_error, assert_that, when, call, ◌>>=◌, ◌>>◌,
}
use confluent_kafka_python.CallState
use confluent_kafka_python.Callbacks.Invoke.{invoke, invoke_field}

-- RD_KAFKA_RESP_ERR__FATAL and RD_KAFKA_RESP_ERR__FAIL
abbrev pub err_fatal : ℤ
err_fatal = negsuc 149

abbrev pub err_fail : ℤ
err_fail = negsuc 195

-- The end of a callback that raised; the dispatcher is stopped through the handle.
abbrev pub crash_and_yield : M (Unit {0})
crash_and_yield = CallState.crash >> call RdCall.yield

-- A call of a Python function, and what follows if it raised.
abbrev pub or_crash : M Bool → M (Unit {0})
or_crash m = m >>= λ result. when (not result) crash_and_yield

abbrev pub fatal_branch : Env → M (Unit {0})
fatal_branch env = do
  fatal ← gets (λ w. env.fatal_error w.calls)
  set_error (kafka_exception (new_fatal env.err2str fatal.0 fatal.1))
  crash_and_yield

abbrev pub call_error_cb : Env → ℤ → Text → Option Object → M (Unit {0})
call_error_cb env err reason none = pure tt
call_error_cb env err reason (some f) =
    or_crash (invoke env f (kafka_error (new0 env.err2str err (some reason)) ∷ []))

unfoldable pub error_cb : Env → ℤ → Text → M (Unit {0})
unfolding CallState.crash
error_cb env err reason = CallState.within (
    gets (λ w. w.error_cb) >>= λ f. elim (eqb_ℤ err err_fatal) [
      | true ↦ fatal_branch env
      | false ↦ call_error_cb env err reason f
    ])

-- The event is made, unless its class raises, and the callback called.
abbrev pub call_with_event : Env → Text → ℤ → ℕ → Object → Option ℕ → M (Unit {0})
call_with_event env broker id ms f (some n) = set_error (application n) >> crash_and_yield
call_with_event env broker id ms f none = or_crash (invoke env f (throttle_event broker id ms ∷ []))

abbrev pub no_throttle_type : M (Unit {0})
no_throttle_type =
    set_error (type_error "No such class/type/object: confluent_kafka.ThrottleEvent")
    >> crash_and_yield

-- The class confluent_kafka.ThrottleEvent is looked up first.
abbrev pub call_throttle_cb : Env → Text → ℤ → ℕ → Option Object → M (Unit {0})
call_throttle_cb env broker id ms none = pure tt
call_throttle_cb env broker id ms (some f) = elim env.throttle_type [
  | false ↦ no_throttle_type
  | true ↦ call_with_event env broker id ms f env.throttle_raises
]

unfoldable pub throttle_cb : Env → Text → ℤ → ℕ → M (Unit {0})
unfolding CallState.crash
throttle_cb env broker id ms =
    CallState.within (gets (λ w. w.throttle_cb) >>= call_throttle_cb env broker id ms)

unfoldable pub stats_cb : Env → Text → M (Unit {0})
unfolding CallState.crash
stats_cb env json = CallState.within (
    gets (λ w. w.stats_cb) >>= λ f.
    when (ltb 0 (length json)) (or_crash (invoke_field env f (str json ∷ []))))

-- level_map, from syslog levels to Python's.
unfoldable pub level_map : ℕ → ℕ
level_map level =
    if leb level 2
    then 50
    else if level == 3
    then 40
    else if level == 4
    then 30
    else if leb level 6
    then 20
    else 10

abbrev pub log_args : Env → ℕ → Text → Text → List Object
log_args env level fac buf =
    int (pos (level_map level))
    ∷ str (codes "%s [%s] %s")
    ∷ str fac
    ∷ str env.log_name
    ∷ str buf
    ∷ []

-- A level above 7 would read past the table.
unfoldable pub log_cb : Env → ℕ → Text → Text → M (Unit {0})
unfolding CallState.crash level_map
log_cb env level fac buf = CallState.within (
    assert_that (leb level 7)
    >> (gets (λ w. w.logger) >>= λ f. or_crash (invoke_field env f (log_args env level fac buf))))

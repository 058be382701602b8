-- ===== src/Format.antt =====
-- Small parts of many methods: an error code turned into an exception, and a timeout in seconds
-- into milliseconds (cfl_PyErr_Format and cfl_timeout_ms of confluent_kafka/src/confluent_kafka.h).
use Prim.Native.String.{String}
use confluent_kafka_python.Base.{◌/◌, ◌++◌, not}
use confluent_kafka_python.Base.Int.{ℤ, pos, negsuc, eqb_ℤ}
use confluent_kafka_python.Base.Text.{codes}
use confluent_kafka_python.World.{Env, M, raise_if, kafka_failure}

-- `if (err) { cfl_PyErr_Format(err, "...%s", rd_kafka_err2str(err)); return NULL; }`
abbrev pub failure : Env → ℤ → String → M (Unit {0})
failure env err prefix =
    raise_if (not (eqb_ℤ err (pos 0))) (kafka_failure env err (codes prefix ++ env.err2str err))

-- A Python float of seconds, as a whole number of microseconds.
abbrev pub Seconds : Type 0
Seconds = ℤ

-- The methods' default, -1.0.
abbrev pub default_seconds : Seconds
default_seconds = negsuc 999999

unfoldable pub timeout_ms : Seconds → ℤ
timeout_ms (pos us) = pos (us / 1000)
timeout_ms (negsuc us) = negsuc 0

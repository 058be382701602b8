-- ===== src/CallState.antt =====
-- CallState of confluent_kafka/src/confluent_kafka.c: around a blocking call of librdkafka Python's
-- lock is released, and each callback takes it again.
use confluent_kafka_python.Base.{suc, Bool, true, false, not, none, some, ltb, ◌&&◌}
use confluent_kafka_python.Object.{application}
use confluent_kafka_python.World.{
  Env, M, ok, pure, gets, modify, assert_that, save_thread, restore_thread, ◌>>=◌, ◌>>◌,
}

unfoldable pub begin : M (Unit {0})
begin = do save_thread; modify (λ w. record w { saved = true; crashed = 0; tls = true })

-- PyErr_CheckSignals: true if a signal's handler raised.
abbrev pub check_signals : Env → M Bool
check_signals env w = elim (env.signal w.calls) [
  | none ↦ (ok false, w)
  | some n ↦ (ok true, record w { error = some (application n) })
]

-- CallState_end; false if a signal's handler or a callback raised.
unfoldable pub finish : Env → M Bool
finish env = do
  modify (λ w. record w { tls = false })
  restore_thread
  signalled ← check_signals env
  crashed ← gets (λ w. ltb 0 w.crashed)
  pure (not signalled && not crashed)

-- CallState_get
unfoldable pub get : M (Unit {0})
get = do
  assert_that (← gets (λ w. w.tls))
  assert_that (← gets (λ w. w.saved))
  restore_thread
  modify (λ w. record w { saved = false })

-- CallState_resume
unfoldable pub resume : M (Unit {0})
resume = do
  assert_that (← gets (λ w. not w.saved))
  save_thread
  modify (λ w. record w { saved = true })

-- The form of every trampoline: CallState_get, the callback, CallState_resume.
abbrev pub within : M (Unit {0}) → M (Unit {0})
within body = get >> (body >> resume)

-- CallState_crash
unfoldable pub crash : M (Unit {0})
crash = modify (λ w. record w { crashed = suc w.crashed })

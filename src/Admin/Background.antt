-- ===== src/Admin/Background.antt =====
-- Admin_background_event_cb of confluent_kafka/src/Admin.c.
use confluent_kafka_python.Base.{Option, none, some, ◌++◌}
use confluent_kafka_python.Base.Int.{ℤ, negsuc}
use confluent_kafka_python.Base.Text.{Text, codes}
use confluent_kafka_python.Object.{Object, Exception, kafka_exception}
use confluent_kafka_python.KafkaError.{new0, new_or_none}
use confluent_kafka_python.World.{
  Env, Outcome, result, exception, M, pure, gets, modify, restore_thread, save_thread, ◌>>=◌, ◌>>◌,
}
use confluent_kafka_python.Attributes.{try}
use confluent_kafka_python.Admin.Request.{drop_future}
use confluent_kafka_python.Admin.Event.{
  AdminEvent, EventResult, other_event, convert, settle, err_unsupported,
}

abbrev pub err_invalid_arg : ℤ
err_invalid_arg = negsuc 185

abbrev pub kafka_outcome : Env → ℤ → Text → Outcome
kafka_outcome env err text = exception (kafka_exception (new0 env.err2str err (some text)))

-- PyErr_Fetch of the exception that a conversion set, and the error where it set none.
abbrev pub failed_outcome : Env → AdminEvent → Option Exception → M Outcome
failed_outcome env ev none = pure (
    kafka_outcome env err_invalid_arg
      (codes "BUG: Event " ++ ev.name ++ codes " handling failed but no exception raised"))
failed_outcome env ev (some e) = modify (λ w. record w { error = none }) >> pure (exception e)

abbrev pub converted_outcome : Env → AdminEvent → Option Object → M Outcome
converted_outcome env ev (some o) = pure (result o)
converted_outcome env ev none = do e ← gets (λ w. w.error); failed_outcome env ev e

-- The `switch` on the type, and what follows it.
abbrev pub result_outcome : Env → AdminEvent → EventResult → M Outcome
result_outcome env ev other_event =
    pure (kafka_outcome env err_unsupported (codes "Unsupported event type " ++ ev.name))
result_outcome env ev r = do o ← try (convert env r); converted_outcome env ev o

-- What the future is told.
unfoldable pub outcome : Env → AdminEvent → M Outcome
unfolding new_or_none convert
outcome env ev = elim (new_or_none env.err2str ev.err (some ev.text)) [
  | some k ↦ pure (exception (kafka_exception k))
  | none ↦ result_outcome env ev ev.result
]

-- PyGILState_Ensure and PyGILState_Release around it. They give the background thread a thread state
-- of its own, whose error indicator is empty at first and is not the application's: the state's one
-- indicator is set aside here while the thread runs, which stands for the switch of thread states
-- and for no step of the code.
unfoldable pub background_event_cb : Env → AdminEvent → M (Unit {0})
unfolding outcome drop_future
background_event_cb env ev = do
  restore_thread
  error ← gets (λ w. w.error)
  modify (λ w. record w { error = none })
  x ← outcome env ev
  settle ev.future x
  drop_future ev.future
  modify (λ w. record w { error = error })
  save_thread

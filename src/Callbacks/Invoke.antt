-- ===== src/Callbacks/Invoke.antt =====
-- A call of a Python callback: PyObject_CallObject and its relatives, with what the application
-- does in it.
pub mod Keeps
use confluent_kafka_python.Base.{
  ℕ, Bool, true, false, Option, none, some, List, [], ◌∷◌, if◌then◌else◌,
}
use confluent_kafka_python.Object.{Object, application, system_error}
use confluent_kafka_python.World.{
  World, Env, RdCall, Script, Act, assigns, unassigns, M, ok, null, fault, pure, gets, modify,
  set_error, assert_that, ◌>>=◌, ◌>>◌,
}
use confluent_kafka_python.Consumer.Assignment.{assign, unassign}

unfoldable pub do_act : Env → Act → M Object
unfolding assign unassign
do_act env (assigns o) = assign env o
do_act env unassigns = unassign env

-- A method's exception as a Boolean: true if it returned.
abbrev pub attempt : {A : Type 0} → M A → M Bool
attempt m w =
    let (r, w') = m w in
    elim r [ ok _ ↦ (ok true, w') | null ↦ (ok false, w') | fault ↦ (fault, w') ]

abbrev pub clear_error : M (Unit {0})
clear_error = modify (λ w. record w { error = none })

-- What follows a call in the callback's code, of which `rest` is left.
abbrev pub after_act : Bool → M Bool → Bool → M Bool
after_act catches rest done =
    if done then rest else if catches then clear_error >> rest else pure false

unfoldable pub do_acts : Env → Bool → List Act → M Bool
do_acts env catches [] = pure true
do_acts env catches (a ∷ acts) =
    attempt (do_act env a) >>= after_act catches (do_acts env catches acts)

abbrev pub end_script : Option ℕ → M Bool
end_script none = pure true
end_script (some n) = set_error (application n) >> pure false

abbrev pub after_acts : Option ℕ → Bool → M Bool
after_acts raises done = if done then end_script raises else pure false

-- False if the callback raised. Python code runs under the lock.
unfoldable pub invoke : Env → Object → List Object → M Bool
invoke env f args = do
  assert_that (← gets (λ w. w.gil))
  let script = env.run f args
  do_acts env script.catches script.acts >>= after_acts script.raises

-- A call through a pointer that may be NULL, for which Python raises SystemError.
abbrev pub invoke_field : Env → Option Object → List Object → M Bool
invoke_field env none args =
    set_error (system_error "null argument to internal routine") >> pure false
invoke_field env (some f) args = invoke env f args

-- A call of librdkafka through the callback's own argument `rk`.
abbrev pub call_arg : RdCall → M (Unit {0})
call_arg c = modify (λ w. record w { calls = c ∷ w.calls })

-- ===== src/Callbacks/Invoke/Keeps.antt =====
-- A Python callback, whatever it calls and however it ends, comes back to its trampoline with the
-- lock held and the client as it was.
use confluent_kafka_python.Base.{
  ℕ, ◌≡◌, refl, sym, subst, Bool, true, false, Option, none, some, List, [], ◌∷◌, arith,
}
use confluent_kafka_python.Object.{Object}
use confluent_kafka_python.World.{
  World, Env, Act, Script, gets, assert_that, assigns, unassigns, M, Result, ok, null, fault, ◌>>=◌,
}
use confluent_kafka_python.World.Laws.{
  Stays, Stays-refl, Keeps, Survives, Returns, Completes, Completes->>=,
}
use confluent_kafka_python.Consumer.Assignment.Keeps.{
  IsHeld, IsHeld-stable, assign-Keeps, unassign-Keeps,
}
use confluent_kafka_python.Callbacks.Invoke.{
  do_act, do_acts, after_act, after_acts, attempt, clear_error, end_script, invoke, invoke_field,
}

do_act-Keeps : (env : Env) (a : Act) → Keeps IsHeld (do_act env a)
unfolding do_act
do_act-Keeps env (assigns o) = assign-Keeps env o
do_act-Keeps env unassigns = unassign-Keeps env

attempt-Completes : {A : Type 0} (m : M A) → Keeps IsHeld m → Completes IsHeld (attempt m)
attempt-Completes {A} m h w p = go (m w) (h w p)
  where
    go :
        (r : Result A × World)
        → Survives r.0 × Stays w r.1
        → let x : Result Bool × World = elim r.0 [
          | ok _ ↦ (ok true, r.1)
          | null ↦ (ok false, r.1)
          | fault ↦ (fault, r.1)
        ] in
          Returns x.0 × Stays w x.1
    go (ok a, w') k = (tt, k.1)
    go (null, w') k = (tt, k.1)
    go (fault, w') k = absurd (k.0 refl)

do_acts-Completes :
    (env : Env) (catches : Bool) (acts : List Act) → Completes IsHeld (do_acts env catches acts)
unfolding do_acts
do_acts-Completes env catches [] = λ w p. (tt, Stays-refl w)
do_acts-Completes env catches (a ∷ acts) =
    let rest = do_acts-Completes env catches acts in
    Completes->>= IsHeld IsHeld-stable (attempt (do_act env a)) _
      (attempt-Completes (do_act env a) (do_act-Keeps env a))
      (after catches (do_acts env catches acts) rest)
  where
    after :
        (catches : Bool) (m : M Bool)
        → Completes IsHeld m
        → (done : Bool) → Completes IsHeld (after_act catches m done)
    after catches m h true = h
    after true m h false =
        Completes->>= IsHeld IsHeld-stable clear_error _ (λ w p. (tt, ground arith)) (λ _. h)
    after false m h false = λ w p. (tt, Stays-refl w)

end_script-Completes : (raises : Option ℕ) → Completes IsHeld (end_script raises)
end_script-Completes none = λ w p. (tt, Stays-refl w)
end_script-Completes (some n) = λ w p. (tt, ground arith)

run_script-Completes :
    (env : Env) (s : Script)
    → Completes IsHeld (do_acts env s.catches s.acts >>= after_acts s.raises)
run_script-Completes env s =
    Completes->>= IsHeld IsHeld-stable (do_acts env s.catches s.acts) _
      (do_acts-Completes env s.catches s.acts) after
  where
    after : (done : Bool) → Completes IsHeld (after_acts s.raises done)
    after true = end_script-Completes s.raises
    after false = λ w p. (tt, Stays-refl w)

locked : Completes IsHeld (gets (λ w. w.gil) >>= assert_that)
locked w p = subst (λ r. Returns r.0 × Stays w r.1) (sym (held w p.1)) (tt, Stays-refl w)
  where
    held : (w : World) → w.gil ≡ true → (gets (λ w. w.gil) >>= assert_that) w ≡ (ok tt, w)
    held w e = ground arith

pub invoke-Completes :
    (env : Env) (f : Object) (args : List Object) → Completes IsHeld (invoke env f args)
unfolding invoke
invoke-Completes env f args =
    Completes->>= IsHeld IsHeld-stable (gets (λ w. w.gil) >>= assert_that) _ locked
      (λ _. run_script-Completes env (env.run f args))

pub invoke_field-Completes :
    (env : Env) (f : Option Object) (args : List Object)
    → Completes IsHeld (invoke_field env f args)
invoke_field-Completes env none args = λ w p. (tt, ground arith)
invoke_field-Completes env (some f) args = invoke-Completes env f args

-- ===== src/Producer/Flight.antt =====
-- The messages in flight, as the calls of librdkafka tell: each that rd_kafka_producev took and of
-- which no later call has served the report.
use confluent_kafka_python.Base.{
  ℕ, ◌==◌, ◌≡◌, ◌≢◌, refl, ap, Bool, true, false, Option, none, some, List, [], ◌∷◌, if◌then◌else◌,
  arith, subst, sym, ◌∙◌,
}
use confluent_kafka_python.Base.Int.{ℤ, pos, eqb_ℤ}
use confluent_kafka_python.Base.Text.{Text}
use confluent_kafka_python.World.{World, Env, Event, RdCall, CPart}
use confluent_kafka_python.World.Laws.{marks}
use confluent_kafka_python.Callbacks.{States, find, remove}
use confluent_kafka_python.Callbacks.Served.{IsServable}
use confluent_kafka_python.Producer.Reports.{AreReported, state_of, after, left}

unfoldable pub ids : States → List ℕ
ids [] = []
ids ((n, cb) ∷ ms) = n ∷ ids ms

unfoldable pub has : ℕ → List ℕ → Bool
has n [] = false
has n (k ∷ ks) = if n == k then true else has n ks

unfoldable pub without : ℕ → List ℕ → List ℕ
without n [] = []
without n (k ∷ ks) = if n == k then ks else k ∷ without n ks

abbrev pub ended_by : List ℕ → Event → List ℕ
ended_by ns e = elim (state_of e) [ none ↦ ns | some n ↦ without n ns ]

unfoldable pub unreported : List ℕ → List Event → List ℕ
unfolding without
unreported ns [] = ns
unreported ns (e ∷ es) = unreported (ended_by ns e) es

-- A report is of a message in flight, and other events are as documented.
abbrev pub IsDue : List ℕ → Event → Type 0
IsDue ns e = elim (state_of e) [ none ↦ IsServable e | some n ↦ has n ns ≡ true ]

abbrev pub AreDue : List ℕ → List Event → Type 0
AreDue ns [] = Unit
AreDue ns (e ∷ es) = IsDue ns e × AreDue (ended_by ns e) es

-- What a call does to the messages in flight.
unfoldable pub effect : Env → RdCall → List RdCall → List ℕ → List ℕ
unfolding unreported
effect env (RdCall.producev topic partition value key timestamp n hs) cs ns =
    if eqb_ℤ (env.code cs (RdCall.producev topic partition value key timestamp n hs)) (pos 0)
    then n ∷ ns
    else ns
effect env (RdCall.poll t) cs ns = unreported ns (env.events cs (RdCall.poll t))
effect env (RdCall.flush t) cs ns = unreported ns (env.events cs (RdCall.flush t))
effect env (RdCall.init_transactions t) cs ns =
    unreported ns (env.events cs (RdCall.init_transactions t))
effect env (RdCall.commit_transaction t) cs ns =
    unreported ns (env.events cs (RdCall.commit_transaction t))
effect env (RdCall.abort_transaction t) cs ns =
    unreported ns (env.events cs (RdCall.abort_transaction t))
effect env (RdCall.send_offsets parts metadata t) cs ns =
    unreported ns (env.events cs (RdCall.send_offsets parts metadata t))
effect env c cs ns = ns

unfoldable pub taken : Env → List (List RdCall) → List ℕ
unfolding effect
taken env [] = []
taken env ([] ∷ hs) = taken env hs
taken env ((c ∷ cs) ∷ hs) = effect env c cs (taken env hs)

abbrev pub in_flight : Env → List RdCall → List ℕ
in_flight env cs = taken env (marks cs)

-- The live msgstates are those of the messages in flight.
abbrev pub IsTracked : Env → World → Type 0
IsTracked env w = ids w.msgstates ≡ in_flight env w.calls

-- A call that serves reports.
abbrev pub IsServing : Env → RdCall → Type 0
IsServing env c =
    (cs : List RdCall) → in_flight env (c ∷ cs) ≡ unreported (in_flight env cs) (env.events cs c)

-- A call that leaves the messages alone.
abbrev pub IsNeutral : Env → RdCall → Type 0
IsNeutral env c = (cs : List RdCall) → in_flight env (c ∷ cs) ≡ in_flight env cs

ids-remove : (n : ℕ) (ms : States) → ids (remove n ms) ≡ without n (ids ms)
unfolding ids remove without
ids-remove n [] = refl
ids-remove n ((k, cb) ∷ ms) = ground (arith, ids-remove n ms)

has-find : (n : ℕ) (ms : States) → has n (ids ms) ≡ true → find n ms ≢ none
unfolding ids has find
has-find n [] h e = absurd (ground (arith, h))
has-find n ((k, cb) ∷ ms) h e = ground (arith, has-find n ms)

ids-after : (ms : States) (e : Event) → ids (after ms e) ≡ ended_by (ids ms) e
ids-after ms e = go (state_of e)
  where
    go :
        (o : Option ℕ)
        → ids (elim o [ none ↦ ms | some n ↦ remove n ms ])
          ≡ elim o [ none ↦ ids ms | some n ↦ without n (ids ms) ]
    go none = refl
    go (some n) = ids-remove n ms

pub ids-left : (ms : States) (es : List Event) → ids (left ms es) ≡ unreported (ids ms) es
unfolding unreported
ids-left ms [] = refl
ids-left ms (e ∷ es) = ids-left (after ms e) es ∙ ap (λ ns. unreported ns es) (ids-after ms e)

pub ids-AreReported : (ms : States) (es : List Event) → AreDue (ids ms) es → AreReported ms es
ids-AreReported ms [] h = tt
ids-AreReported ms (e ∷ es) h = (
  one (state_of e) h.0,
  ids-AreReported (after ms e) es (subst (λ ns. AreDue ns es) (sym (ids-after ms e)) h.1),
)
  where
    one :
        (o : Option ℕ)
        → (let due : Type 0 = elim o [ none ↦ IsServable e | some n ↦ has n (ids ms) ≡ true ] in
            due)
        → (let due : Type 0 = elim o [ none ↦ IsServable e | some n ↦ find n ms ≢ none ] in due)
    one none h = h
    one (some n) h = has-find n ms h

-- The calls of a Producer that serve reports, and two that do not.
pub poll-IsServing : (env : Env) (t : ℤ) → IsServing env (RdCall.poll t)
unfolding taken
poll-IsServing env t cs = refl

pub flush-IsServing : (env : Env) (t : ℤ) → IsServing env (RdCall.flush t)
unfolding taken
flush-IsServing env t cs = refl

pub init_transactions-IsServing : (env : Env) (t : ℤ) → IsServing env (RdCall.init_transactions t)
unfolding taken
init_transactions-IsServing env t cs = refl

pub commit_transaction-IsServing : (env : Env) (t : ℤ) → IsServing env (RdCall.commit_transaction t)
unfolding taken
commit_transaction-IsServing env t cs = refl

pub abort_transaction-IsServing : (env : Env) (t : ℤ) → IsServing env (RdCall.abort_transaction t)
unfolding taken
abort_transaction-IsServing env t cs = refl

pub send_offsets-IsServing :
    (env : Env) (parts : List CPart) (metadata : Text) (t : ℤ)
    → IsServing env (RdCall.send_offsets parts metadata t)
unfolding taken
send_offsets-IsServing env parts metadata t cs = refl

pub begin_transaction-IsNeutral : (env : Env) → IsNeutral env RdCall.begin_transaction
unfolding taken
begin_transaction-IsNeutral env cs = refl

pub metadata-IsNeutral :
    (env : Env) (topic : Option Text) (t : ℤ) → IsNeutral env (RdCall.metadata topic t)
unfolding taken
metadata-IsNeutral env topic t cs = refl

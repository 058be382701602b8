-- ===== src/Producer/Queue.antt =====
-- What a Producer promises of its messages: each that librdkafka takes is in flight, under a number
-- of its own, until one report of it. The abstract view of Producer_msgstate in
-- confluent_kafka/src/Producer.c.
use confluent_kafka_python.Base.{
  ℕ, suc, ◌<◌, ◌≤◌, ◌≡◌, refl, Option, none, some, List, [], ◌∷◌, arith,
}
use confluent_kafka_python.Object.{Object}
use confluent_kafka_python.World.{World, Event}
use confluent_kafka_python.Callbacks.{States, find, remove}
use confluent_kafka_python.Producer.Reports.{AreReported, state_of, after, left}

-- The number of the next message, and the messages in flight, the latest first.
pub record Queue : Type 0 where
  pub next : ℕ
  pub waiting : States

abbrev pub queue_of : World → Queue
queue_of w = record { next = w.next_msgstate; waiting = w.msgstates }

pub data Step (q : Queue) : Queue → Type 0 where
  takes :
      (cb : Option Object)
      → Step q (record { next = suc q.next; waiting = (q.next, cb) ∷ q.waiting })
  refuses : Step q (record { next = suc q.next; waiting = q.waiting })
  reports :
      (es : List Event)
      → AreReported q.waiting es
      → Step q (record { next = q.next; waiting = left q.waiting es })

pub data Steps (q : Queue) : Queue → Type 0 where
  idle : Steps q q
  follow : {r s : Queue} → Steps q r → Step r s → Steps q s

pub Steps-trans : {q r s : Queue} → Steps q r → Steps r s → Steps q s
Steps-trans h idle = h
Steps-trans h (follow k s) = follow (Steps-trans h k) s

-- The numbers fall from the latest message on, from below `n`; so they are different.
abbrev pub AreNumbered : ℕ → States → Type 0
AreNumbered n [] = Unit
AreNumbered n ((k, cb) ∷ ms) = (k < n) × AreNumbered k ms

abbrev pub IsNumbered : Queue → Type 0
IsNumbered q = AreNumbered q.next q.waiting

AreNumbered-le : (k n : ℕ) (ms : States) → k ≤ n → AreNumbered k ms → AreNumbered n ms
AreNumbered-le k n [] h a = tt
AreNumbered-le k n ((j, cb) ∷ ms) h a = (omega (arith, a.0), a.1)

remove-AreNumbered : (j n : ℕ) (ms : States) → AreNumbered n ms → AreNumbered n (remove j ms)
unfolding remove
remove-AreNumbered j n [] a = tt
remove-AreNumbered j n ((k, cb) ∷ ms) a =
    ground (arith, AreNumbered-le k n ms, remove-AreNumbered j k ms)

left-AreNumbered :
    (n : ℕ) (ms : States) (es : List Event) → AreNumbered n ms → AreNumbered n (left ms es)
left-AreNumbered n ms [] a = a
left-AreNumbered n ms (e ∷ es) a = left-AreNumbered n (after ms e) es (one (state_of e))
  where
    one :
        (m : Option ℕ)
        → (let ns : States = elim m [ none ↦ ms | some k ↦ remove k ms ] in AreNumbered n ns)
    one none = a
    one (some k) = remove-AreNumbered k n ms a

Step-IsNumbered : {q r : Queue} → Step q r → IsNumbered q → IsNumbered r
Step-IsNumbered {q} (takes cb) h = (omega arith, h)
Step-IsNumbered {q} refuses h = AreNumbered-le q.next (suc q.next) q.waiting (omega arith) h
Step-IsNumbered {q} (reports es a) h = left-AreNumbered q.next q.waiting es h

pub Steps-IsNumbered : {q r : Queue} → Steps q r → IsNumbered q → IsNumbered r
Steps-IsNumbered idle h = h
Steps-IsNumbered (follow k s) h = Step-IsNumbered s (Steps-IsNumbered k h)

-- Above all numbers nothing is found.
find_above : (j n : ℕ) (ms : States) → n ≤ j → AreNumbered n ms → find j ms ≡ none
unfolding find
find_above j n [] h a = refl
find_above j n ((k, cb) ∷ ms) h a = ground (arith, find_above j k ms)

-- A report ends its message: the number is not found again.
pub find-remove : (j n : ℕ) (ms : States) → AreNumbered n ms → find j (remove j ms) ≡ none
unfolding find remove
find-remove j n [] a = refl
find-remove j n ((k, cb) ∷ ms) a = ground (arith, find_above j k ms, find-remove j k ms)

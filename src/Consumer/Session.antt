-- ===== src/Consumer/Session.antt =====
-- Whole sessions: one method after the other, exceptions caught by the application.
use Prim.Native.String.{String}
use confluent_kafka_python.Base.{◌≡◌, ◌⊎◌, Bool, true, false, Option, none, some, List, [], ◌∷◌}
use confluent_kafka_python.Object.{Object}
use confluent_kafka_python.World.{World, Env, Result, ok, null, fault, parsed}
use confluent_kafka_python.World.Laws.{Survives}
use confluent_kafka_python.Consumer.Assignment
use confluent_kafka_python.Consumer.Subscription
use confluent_kafka_python.Consumer.Offsets
use confluent_kafka_python.Consumer.Flow
use confluent_kafka_python.Consumer.Fetch
use confluent_kafka_python.Consumer.Lifecycle
use confluent_kafka_python.Base.Text.{Text}
use confluent_kafka_python.Consumer.Method.{Method, call_method}
use confluent_kafka_python.Consumer.Closed.{closed_text}
use confluent_kafka_python.Consumer.Balance.{IsReady, Owns}
use confluent_kafka_python.Consumer.Balance.Queries
use confluent_kafka_python.Consumer.Balance.Commits
use confluent_kafka_python.Consumer.Balance.Commits.{HasTopic}
use confluent_kafka_python.Consumer.Balance.Fetches
use confluent_kafka_python.Consumer.Balance.Ending

-- A message among the arguments has a topic.
abbrev pub IsSound : Method → Type 0
IsSound (Method.commit (parsed (msg, offsets, async))) = HasTopic msg
IsSound (Method.store_offsets (parsed (msg, offsets))) = HasTopic msg
IsSound _ = Unit

-- Closed, with the lock held.
abbrev pub IsShut : World → Type 0
IsShut w = (w.rk ≡ false) × (w.gil ≡ true) × (w.tls ≡ false)

-- Between two methods: the Consumer is open or closed, and what was owned at `w0` is owned.
abbrev pub IsUsable : World → World → Type 0
IsUsable w0 w = (IsReady w ⊎ IsShut w) × Owns w0 w

-- The methods one after the other; `none` if one ends the process.
unfoldable pub run_methods : Env → List Method → World → Option World
run_methods env [] w = some w
run_methods env (m ∷ ms) w =
    let (r, w') = call_method env m w in
    let rest = run_methods env ms w' in elim r [ ok _ ↦ rest | null ↦ rest | fault ↦ none ]

-- Not pause(), resume() or list_topics(), which do not test for a closed Consumer.
abbrev pub Tests : Method → Type 0
Tests m = (text : String) × (closed_text m ≡ some text)

-- Whether the Consumer is known to be open: until close().
abbrev pub still_open : Bool → Method → Bool
still_open b Method.close = false
still_open b m = b

abbrev pub MayCall : Bool → Method → Type 0
MayCall true m = Unit
MayCall false m = Tests m

abbrev pub AllSound : Bool → List Method → Type 0
AllSound b [] = Unit
AllSound b (m ∷ ms) = IsSound m × MayCall b m × AllSound (still_open b m) ms

abbrev pub IsIn : Bool → World → World → Type 0
IsIn true w0 w = IsReady w × Owns w0 w
IsIn false w0 w = IsUsable w0 w

abbrev Leaves : World → Result (Unit {0}) × World → Type 0
Leaves w0 r = Survives r.0 × IsUsable w0 r.1

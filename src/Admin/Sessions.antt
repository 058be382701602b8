-- ===== src/Admin/Sessions.antt =====
-- An AdminClient in use: requests of the application, and then the events of the background thread.
use confluent_kafka_python.Base.{ℕ, ◌≡◌, some, List, [], ◌∷◌, map}
use confluent_kafka_python.Object.{Object}
use confluent_kafka_python.World.{
  World, Env, Held, Outcome, RdCall, AdminApi, M, parsed, pure, save_thread, restore_thread, ◌>>◌,
}
use confluent_kafka_python.AdminTypes.{NewTopic, NewPartitions}
use confluent_kafka_python.Attributes.{try}
use confluent_kafka_python.Admin.Build.{Resource}
use confluent_kafka_python.Admin.Request.{
  Arguments, drop_ref, create_topics_request, delete_topics_request, create_partitions_request,
  describe_configs_request, alter_configs_request,
}
use confluent_kafka_python.Admin.Accounts.{IsOpen}
use confluent_kafka_python.Admin.Requests.{count_of}
use confluent_kafka_python.Admin.Event.{AdminEvent}
use confluent_kafka_python.Admin.Background.{background_event_cb}

-- The methods of an AdminClient that make requests, on their parsed arguments.
pub data Request : Type 0 where
  topics_to_create : Arguments NewTopic → Request
  topics_to_delete : Arguments Object → Request
  partitions_to_create : Arguments NewPartitions → Request
  configs_to_describe configs_to_alter : Arguments Resource → Request

unfoldable pub run_request : Env → Request → M Object
unfolding create_topics_request delete_topics_request create_partitions_request
    describe_configs_request alter_configs_request
run_request env (topics_to_create a) = create_topics_request env (parsed a)
run_request env (topics_to_delete a) = delete_topics_request env (parsed a)
run_request env (partitions_to_create a) = create_partitions_request env (parsed a)
run_request env (configs_to_describe a) = describe_configs_request env (parsed a)
run_request env (configs_to_alter a) = alter_configs_request env (parsed a)

-- Requests of an application that catches their exceptions.
unfoldable pub run_requests : Env → List Request → M (Unit {0})
unfolding run_request
run_requests env [] = pure tt
run_requests env (q ∷ qs) = try (run_request env q) >> run_requests env qs

-- Events of the background thread.
unfoldable pub deliver : Env → List AdminEvent → M (Unit {0})
unfolding background_event_cb
deliver env [] = pure tt
deliver env (ev ∷ evs) = background_event_cb env ev >> deliver env evs

-- The requests, and then the events while the application waits outside the lock.
unfoldable pub run_session : Env → List Request → List AdminEvent → M (Unit {0})
unfolding run_requests deliver
run_session env qs evs = do run_requests env qs; save_thread; deliver env evs; restore_thread

abbrev pub add_request : RdCall → List ℕ → List ℕ
add_request (RdCall.admin api cs options f) fs = f ∷ fs
add_request _ fs = fs

-- The futures of the requests made of librdkafka.
unfoldable pub requested : List RdCall → List ℕ
requested [] = []
requested (c ∷ cs) = add_request c (requested cs)

-- The references of futures that are held are those of the requests, and all else is released.
pub record IsOutstanding (h : Held) (w : World) : Type 0 where
  pub held : w.held ≡ record h { futures = requested w.calls }
  pub is_open : IsOpen w

-- The kind of a request and the future that it is to settle.
abbrev pub api_of : Request → AdminApi
api_of (topics_to_create a) = AdminApi.create_topics
api_of (topics_to_delete a) = AdminApi.delete_topics
api_of (partitions_to_create a) = AdminApi.create_partitions
api_of (configs_to_describe a) = AdminApi.describe_configs
api_of (configs_to_alter a) = AdminApi.alter_configs

-- The number of its items.
abbrev pub items_of : Request → ℕ
items_of (topics_to_create a) = count_of a.items
items_of (topics_to_delete a) = count_of a.items
items_of (partitions_to_create a) = count_of a.items
items_of (configs_to_describe a) = count_of a.items
items_of (configs_to_alter a) = count_of a.items

abbrev pub future_of : Request → ℕ
future_of (topics_to_create a) = a.future
future_of (topics_to_delete a) = a.future
future_of (partitions_to_create a) = a.future
future_of (configs_to_describe a) = a.future
future_of (configs_to_alter a) = a.future

-- Each number of the one list is an element of the other, and each element is one of them once.
abbrev pub EachOnce : List ℕ → List ℕ → Type 0
EachOnce [] gs = gs ≡ []
EachOnce (f ∷ fs) gs = (hs : List ℕ) × (drop_ref f gs ≡ some hs) × EachOnce fs hs

-- The futures of events, in the reverse order, before others.
unfoldable pub settled_by : List AdminEvent → List ℕ → List ℕ
settled_by [] fs = fs
settled_by (ev ∷ evs) fs = settled_by evs (ev.future ∷ fs)

abbrev pub told : List (ℕ × Outcome) → List ℕ
told xs = map (λ x. x.0) xs

-- ===== src/Init/Lives.antt =====
-- A Consumer from its constructor on.
use confluent_kafka_python.Base.{Option, none, some, List}
use confluent_kafka_python.Object.{Object, Entries}
use confluent_kafka_python.World.{World, Env, ok, null, fault}
use confluent_kafka_python.Consumer.Method.{Method}
use confluent_kafka_python.Consumer.Session.{run_methods}
use confluent_kafka_python.Init.{consumer_init}
use confluent_kafka_python.Init.Starts.{Starts}

-- The constructor, and then the methods, if there is a Consumer; `none` if the process ends.
unfoldable pub run_consumer :
    Env → List Object → Option Entries → List Method → World → Option World
unfolding consumer_init run_methods
run_consumer env args kwargs ms w =
    let (r, w') = consumer_init env args kwargs w in
    elim r [ ok _ ↦ run_methods env ms w' | null ↦ some w' | fault ↦ none ]

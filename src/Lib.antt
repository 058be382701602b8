-- ===== src/Lib.antt =====
-- The C extension of the Python client for Kafka, confluent_kafka/src, which wraps librdkafka.
--
-- The parts of the program. A Producer or Consumer is a Handle: a pointer to librdkafka's client,
-- the application's callbacks and, for a Consumer, a queue. Its methods convert Python objects to
-- C objects that they own and have to free, call librdkafka, and convert the result back. Around a
-- call that blocks, a CallState gives up Python's lock (the GIL); librdkafka then serves callbacks
-- through trampolines, each of which takes the lock, calls the application and releases the lock.
-- A callback that raises marks the CallState as crashed, and the method raises at its end.
--
-- Base: natural numbers, integers, C's int and long, byte strings. Object: Python objects as the
--   extension inspects them, the structs KafkaError and TopicPartition, and exceptions.
-- KafkaError, TopicPartition, Message, Headers: those types of confluent_kafka.c, with their
--   conversions from and to librdkafka's (KafkaError_new0, c_parts_to_py, py_to_c_parts,
--   Message_new0 and the methods of a Message, py_headers_to_c, c_headers_to_py).
-- World: the state of a client and of the thread, with the actions over it. A C function that may
--   fail is an action with three results: a value, NULL with an exception set, or the end of the
--   process. The actions count what the extension owns, so that a leak or a second free shows.
--   Env holds librdkafka's and Python's answers, as functions of the calls made so far; they are
--   parameters of the model. Format, CallState, Handle: the small functions that all methods share.
-- Callbacks: error_cb, throttle_cb, stats_cb and log_cb of confluent_kafka.c,
--   Consumer_rebalance_cb and Consumer_offset_commit_cb of Consumer.c, dr_msg_cb of Producer.c.
--   Callbacks/Dispatch.antt serves them in order, as librdkafka does inside a blocking call.
-- Consumer: the methods of Consumer.c: Assignment (assign, unassign), Subscription, Offsets (commit,
--   store_offsets, committed, position, offsets_for_times), Flow (pause, resume, seek,
--   get_watermark_offsets), Fetch (poll, consume), Lifecycle (close, consumer_group_metadata, the
--   destructor). Method makes them one type; Closed, Balance and Session are about all of them.
-- Producer: Producer.c: Produce, Serve (poll, flush, the destructor), Transaction. Method makes the
--   methods one type; Queue is the abstract view of the messages in flight and Flight reads them off the
--   calls of librdkafka, and Session says that the methods keep to both. Outcome, Reports, Ends and
--   Runs hold the proofs.
-- Config, Init: the configuration of a client (common_conf_setup and the functions that it calls) and
--   the constructors Consumer_init, Producer_init and Admin_init. Dict: Python's dicts. Config/Steps,
--   Setup and Freed, Init/Starts and Lives hold the proofs.
-- Attributes, AdminTypes, Admin: the AdminClient. Attributes reads attributes of Python objects
--   (cfl_PyObject_GetInt and its relatives), AdminTypes has NewTopic and NewPartitions of AdminTypes.c.
--   Of Admin.c, Admin/Options and Admin/Build make the C objects of a request, Admin/Request is the
--   requests, the poll and the destructor, Admin/Event the results and Admin/Background the callback of
--   librdkafka's background thread. A request gives librdkafka a reference to a future, which
--   the callback settles and drops. The other files of Admin hold the proofs.
-- Metadata: list_topics of Metadata.c, which all clients share; Metadata/Converted and Listed hold the
--   proofs.
-- Cimpl: the initialisation of the module in confluent_kafka.c: Errors is KafkaError_add_errs, Types
--   _init_cimpl; Lines, Rows and Bounds hold the proofs.
-- Collect: what Python's garbage collector and reference counts see of the objects, the tp_traverse,
--   tp_clear and tp_init functions of confluent_kafka.c, AdminTypes.c and the three clients.
-- Tests: every theorem with conditions at a concrete input, and runs.
--
-- Bounds. The difference of two partitions is taken in 32 bits and TopicPartition's hash in 64; an
-- error's text is cut to 511 bytes, and KafkaError's table of errors is written into a buffer of a
-- fixed size for each error. Every recursion is over a list or another finite value, so nothing runs
-- on fuel. Seconds are whole numbers of microseconds; their conversion to an int is not cut at 2 ^ 31.
--
-- The encoding of a str as UTF-8 may fail, on a lone surrogate: Env's utf8 then gives nothing, and
-- where the code does not check for the NULL of cfl_PyUnistr_AsUTF8 the process ends. That is the key
-- of a header, the name of a property, a topic for subscribe() or delete_topics() and the name of a
-- setting. The results on sessions, constructors and requests have the condition that texts can be
-- encoded (Encodes), of the Env of the run, which holds if no str that the application hands over has
-- a lone surrogate; that of headers_to_c_cases has the end of the process as an outcome. The key of a
-- consumed header may not be UTF-8, which c_headers_to_py does not check for either; librdkafka's other
-- strings are taken as they are.
--
-- What a callback of the application does is a list of its calls of assign() and unassign(), after
-- which it returns or raises; other methods called from within a callback are not modelled, nor are
-- several threads that share a client, reference counts outside Collect, and failures of allocation
-- where the code does not test for them. The options and objects of a request count as owned
-- whatever they hold, and an instance of a Python class that the extension makes is what Env gives for
-- its arguments. Not modelled are the texts of repr(), the static tables of Python types, the deletion
-- of the thread-local key in Handle_clear, Producer_produce0, which is for a librdkafka without
-- producev, and the Python code.
pub mod Base
pub mod Object
pub mod KafkaError
pub mod TopicPartition
pub mod World
pub mod Format
pub mod CallState
pub mod Consumer
pub mod Callbacks
pub mod Message
pub mod Handle
pub mod Headers
pub mod Producer
pub mod Dict
pub mod Metadata
pub mod Config
pub mod Init
pub mod Attributes
pub mod AdminTypes
pub mod Admin
pub mod Cimpl
pub mod Collect
pub mod Tests

-- ===== src/Lib.antt =====
-- The verification library of kafka-resilience: a Go library that retries failed Kafka messages through
-- a retry topic, keeps the order of each key by locks, and sends what cannot be retried to a dead letter
-- topic.
--
-- The parts, with the files that model them:
-- - Base: numbers, finite maps, the monad of calls with a state and an error, and decimal texts
--   (strconv). Base/Decimal/RoundTrip is about the texts of an int64.
-- - Message (resilience/message.go): Message/Headers is headerList, a function for each method;
--   Message/Values is GetHeaderValue and SetHeader for text, int and time; Message/Envelope is
--   MessageEnvelope with NewMessageEnvelope and NewFromMessage.
-- - Locks (resilience/coordinator_local.go): the map of topics, keys and reference counts. An empty
--   inner map and a missing one differ, and counts are integers, as in the code.
-- - Errors (resilience/tracker.go): wrapped errors and NotRetriableError.
-- - World: the state that the tracker and the coordinator of one process share, which is the lock map
--   and what the producer has accepted, and the environment: the producer's errors, the clock, the id
--   generator, the end of a wait, and retry.Do. World/Retry says what is relied on of retry.Do, which
--   is a third-party package: at most so many tries, a stop at the first success, and an error
--   otherwise, even at once where the context ends. A loop that meets these rules is there too.
-- - Config (resilience/config.go): the configuration, its validation and the names of the topics.
-- - Coordinator (resilience/coordinator_kafka.go): Acquire, Release, IsLocked and the records of the
--   redirect topic. Coordinator/Instances puts two instances together; Coordinator/Offsets is the test
--   whether the redirect consumer has caught up, with the handlers that record its offsets.
-- - Admin (resilience/interfaces.go, with ensureTopicsExist of resilience/tracker.go and
--   ensureRedirectTopic of resilience/coordinator_kafka.go): the cluster that topics are asked of, as
--   outcomes of calls and a list of requests, and the creation of the topics. Admin/Topics and
--   Admin/RedirectTopic say what is asked for.
-- - Coordinator/Startup: Start, restoreState and startRedirectConsumer of the coordinator, and
--   StartCoordinator of the tracker. Startup/Replay counts the records that are restored,
--   Startup/Restart is about a second Start. Coordinator/Background is the loop of the goroutine
--   that startRedirectConsumer launches, with the channel of its errors, and Close.
--   Coordinator/Synchronize: the tests of Synchronize, and its wait as a step relation over its
--   select, its goroutine, the redirect consumer and the clock.
-- - Lifecycle (resilience/tracker.go): Start, startRetryWorker and Close as regions of code between
--   which other goroutines run. Lifecycle/Steps is the step relation, Lifecycle/Waits the counter of
--   the WaitGroup, Lifecycle/Contexts and Lifecycle/Owned the cancel functions, Lifecycle/Shutdown what
--   Close waits for.
-- - Backoff (resilience/backoff.go): the constant and the linear strategy; Backoff/Exponential is the
--   exponential one, over an interface for float64 and math.Pow with the laws that it relies on.
-- - Sarama (adapter/sarama/message.go): the headers of a message of the client library.
--   Sarama/Consumer is ConsumeClaim and Consume of adapter/sarama/consumer.go, Sarama/Admin is
--   CreateTopic and DescribeTopics of adapter/sarama/admin.go, Sarama/Producer is Produce of
--   adapter/sarama/producer.go, Sarama/Message is Message of adapter/sarama/message.go.
-- - Tracker (resilience/tracker.go): the messages that are built are in Tracker; Redirect, Free,
--   SendToDLQ, WaitForRetryTime and the two handlers are in Tracker/Chain. The tracker calls its
--   coordinator through the record StateCoordinator; Tracker/Locking is the laws of that interface,
--   which the Kafka coordinator fills. Tracker/Redirect and Tracker/Redirects follow a message into
--   the chain, Tracker/Stay follows one that is in it, Tracker/Rounds counts its rounds
--   (Rounds/Bound bounds them), Tracker/Dlq, Tracker/Exceeded and Tracker/Policy those that leave
--   it, Tracker/Handlers and Tracker/Workers (with Workers/Branches) the handlers, Tracker/Order the messages of a claim one
--   after the other, with Order/Queue for what has to be queued, Order/Unlock for the retries that
--   follow and Order/Shared for another instance, which Order/Recovery starts behind the claim.
--   Tracker/Create is NewErrorTracker with the options of resilience/options.go. Sarama/Create is
--   NewResilienceTracker of adapter/sarama/tracker.go with the adapters' constructors.
-- - Programs (examples/sarama): what the example programs share. Programs/Granular is ManualHandler
--   of granular/main.go, and Granular/Agrees compares it with the tracker's own handlers;
--   Programs/Strict is the claim loop, the handler and the consumer loop of strict/main.go.
--   Programs/Demo is DemoHandler of demo/handler.go, Demo/Web the endpoints of demo/main.go,
--   Demo/Accesses what changes their state, Demo/Stats the counters, Demo/Armed the keys that are to
--   fail, and Demo/Shown what GET /locks lists behind the first failure of a key.
-- - Examples: the theorems at concrete inputs.
--
-- Texts stand for byte slices. A nil payload is told from an empty one; a nil key is not. Integers are
-- unbounded where the code cannot leave its range: the next attempt is below MaxRetries + 1. A text's
-- number is read as an int64 and refused outside it. Outside Lifecycle and Coordinator/Synchronize,
-- each call runs to its end before the next one starts; the mutexes make the single operations on the
-- lock map atomic. What a library or the cluster does is an argument: the n-th call has the outcome that
-- an environment gives it, and the messages that a consumer hands over are a list. Fuel is used
-- twice: the digits of n are given n + 1, and each digit divides n by 10; the example loop is given its
-- number of tries.
--
-- Not modelled: logging and metrics, which nothing reads back; the deletion of the ephemeral consumer
-- group, of which the error is logged; deadlines of the context that is given to Start; the main
-- functions of the example programs, which build the parts and wait for a signal.
pub mod Base
pub mod Message
pub mod Locks
pub mod Errors
pub mod World
pub mod Config
pub mod Backoff
pub mod Admin
pub mod Coordinator
pub mod Lifecycle
pub mod Tracker
pub mod Sarama
pub mod Examples
pub mod Programs

-- ===== src/Coordinator/Startup.antt =====
-- Start of KafkaStateCoordinator (resilience/coordinator_kafka.go) with restoreState and
-- startRedirectConsumer. The goroutine that startRedirectConsumer launches is a number among the
-- running consumers; its handler is `redirect_handle`.
pub mod Replay
pub mod Restart
use Prim.Native.String.{◌++◌}
use kafka_resilience.Base.{
  ℕ, ◌+◌, String, Bool, true, false, Option, none, some, List, [], ◌∷◌, ◌||◌, if◌then◌else◌, ℤ, pos,
  ltb_ℤ,
}
use kafka_resilience.Base.Exec.{Exec, Result, ok, err, pure, raise, ◌>>=◌, ◌>>◌}
use kafka_resilience.Errors.{Error, new, wrap}
use kafka_resilience.Config.{Config, redirect_topic}
use kafka_resilience.Message.Envelope.{Envelope}
use kafka_resilience.World.{World}
use kafka_resilience.Admin.{
  TopicMetadata, Cluster, AdminEnvironment, describe_topics, ensure_redirect_topic,
  ensure_topics_exist,
}
use kafka_resilience.Coordinator.{Coordinator}
use kafka_resilience.Coordinator.Offsets.{Offsets, Consumer, fill_handle}

-- The fields of the coordinator that Start changes, and what its calls change.
pub record Startup : Type 0 where
  pub started : Bool
  pub topic : String
  pub running : ℕ
  pub world : World
  pub cluster : Cluster

-- What a call of Consume returns: nil, context.Canceled, or another error.
pub data Consumed : Type 0 where
  finished : Consumed
  canceled : Consumed
  broken : Error → Consumed

-- The calls of Start that leave the program. `handled` are the messages that the restoring consumer
-- gives to its handler until Consume returns, in their order.
pub record StartEnvironment : Type 0 where
  pub admin : AdminEnvironment
  pub group_id : String
  pub new_consumer : String → Option Error
  pub handled : List Envelope
  pub consumed : Consumed

-- A call on the cluster.
abbrev pub on_cluster : {A : Type 0} → Exec Cluster Error A → Exec Startup Error A
on_cluster m s = let (r, c) = m s.cluster in (r, record s { cluster = c })

-- slices.ContainsFunc over the values with `o > 0`.
unfoldable pub has_data : Offsets → Bool
has_data [] = false
has_data (at ∷ rest) = ltb_ℤ (pos 0) at.1 || has_data rest

-- The handler on one message after the other. An error is the consumer's business, what was changed
-- stays.
unfoldable pub fill_all : Coordinator → Offsets → List Envelope → Consumer → Consumer
fill_all k targets [] s = s
fill_all k targets (msg ∷ msgs) s = fill_all k targets msgs (fill_handle k targets msg s).1

abbrev pub filled : Coordinator → Offsets → List Envelope → World → Consumer
filled k targets msgs w =
    fill_all k targets msgs (record { world = w; consumed = []; cancelled = false })

abbrev pub restore_result : Consumed → Result Error (Unit {0})
restore_result Consumed.finished = ok tt
restore_result Consumed.canceled = ok tt
restore_result (Consumed.broken e) = err (wrap "restore failed" e)

-- NewConsumer, with the outcome of the call.
abbrev pub created : Option Error → Exec Startup Error (Unit {0})
created none s = (ok tt, s)
created (some e) s = (err e, s)

module _ (env : StartEnvironment) (k : Coordinator) where
  -- restoreState from the consumer of the ephemeral group on.
  unfoldable pub refill : Offsets → Exec Startup Error (Unit {0})
  refill targets s = (
    restore_result env.consumed,
    record s { world = (filled k targets env.handled s.world).world },
  )

  -- restoreState behind the metadata.
  unfoldable pub restore_from : List TopicMetadata → Exec Startup Error (Unit {0})
  unfolding ◌>>=◌ refill
  restore_from [] = pure tt
  restore_from (m ∷ ms) =
      if has_data m.partition_offsets
      then created (env.new_consumer env.group_id) >> refill m.partition_offsets
      else pure tt

  -- restoreState behind the call of DescribeTopics, with its outcome.
  abbrev pub restored : Result Error (List TopicMetadata) → Exec Startup Error (Unit {0})
  restored (ok metadata) s = restore_from metadata s
  restored (err e) s = (err (wrap "failed to describe redirect topic for restore" e), s)

  module _ (cfg : Config) where
    unfoldable pub describe_redirect_topic : String → Exec Startup Error (List TopicMetadata)
    describe_redirect_topic topic =
        on_cluster (describe_topics env.admin (redirect_topic cfg topic ∷ []))

    unfoldable pub restore_state : String → Exec Startup Error (Unit {0})
    unfolding describe_redirect_topic
    restore_state topic s = let (r, s') = describe_redirect_topic topic s in restored r s'

    unfoldable pub start_redirect_consumer : Exec Startup Error (Unit {0})
    unfolding ◌>>=◌
    start_redirect_consumer = do
      created (env.new_consumer (cfg.group_id ++ "-redirect"))
      λ s. (ok tt, record s { running = s.running + 1 })

    -- Start behind the test for `started`.
    unfoldable pub start_up : String → Exec Startup Error (Unit {0})
    unfolding ◌>>=◌
    start_up topic = do
      on_cluster (ensure_redirect_topic env.admin cfg topic)
      restore_state topic
      start_redirect_consumer

    unfoldable pub start : String → Exec Startup Error (Unit {0})
    start topic s =
        if s.started
        then (ok tt, s)
        else start_up topic (record s { started = true; topic = topic })

    -- StartCoordinator of the tracker; `retry_first` is the order of the two goroutines that create
    -- topics.
    unfoldable pub start_coordinator : Bool → String → Exec Startup Error (Unit {0})
    unfolding ◌>>=◌
    start_coordinator retry_first topic = do
      on_cluster (ensure_topics_exist env.admin cfg retry_first topic)
      start topic

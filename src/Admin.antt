-- ===== src/Admin.antt =====
-- The interface Admin of resilience/interfaces.go as the program calls it, and the creation of the
-- topics: ensureTopicsExist of resilience/tracker.go and ensureRedirectTopic of
-- resilience/coordinator_kafka.go.
pub mod Topics
pub mod RedirectTopic
use Prim.Native.String.{◌++◌}
use kafka_resilience.Base.{
  ℕ, ◌+◌, String, Bool, true, false, Option, none, some, List, [], ◌∷◌, ◌==◌, ◌||◌, ◌&&◌,
  if◌then◌else◌, ℤ, pos,
}
use kafka_resilience.Base.Exec.{Exec, Result, ok, err, pure, raise, ◌>>=◌, ◌>>◌, catch}
use kafka_resilience.Errors.{Error, new, wrap}
use kafka_resilience.Config.{Config, retry_topic, redirect_topic, dlq_topic}
use kafka_resilience.Message.Values.{int_eq}

pub record TopicMetadata : Type 0 where
  pub name : String
  pub partitions : ℤ
  pub partition_offsets : List (ℤ × ℤ)

-- The arguments of CreateTopic.
pub record TopicRequest : Type 0 where
  pub name : String
  pub partitions : ℤ
  pub replication_factor : ℤ
  pub config : List (String × String)

-- What the admin client has accepted, the newest in front, and the number of its calls.
pub record Cluster : Type 0 where
  pub requested : List TopicRequest
  pub calls : ℕ

-- The outcome of the n-th call. CreateTopic returns nil for a topic that is there already.
pub record AdminEnvironment : Type 0 where
  pub described : ℕ → List String → Result Error (List TopicMetadata)
  pub create_error : ℕ → TopicRequest → Option Error

abbrev pub annotated : {A : Type 0} → String → Exec Cluster Error A → Exec Cluster Error A
annotated text m = catch m (λ e. raise (wrap text e))

-- slices.ContainsFunc with the test for a name.
unfoldable pub contains_name : String → List TopicMetadata → Bool
contains_name name [] = false
contains_name name (m ∷ ms) = m.name == name || contains_name name ms

abbrev pub format_bool : Bool → String
format_bool true = "true"
format_bool false = "false"

-- errgroup.Wait returns the first error that a function of the group returned.
abbrev pub first_error : Result Error (Unit {0}) → Result Error (Unit {0}) → Result Error (Unit {0})
first_error (ok u) r = r
first_error (err e) r = err e

-- The cluster after a call with this outcome.
abbrev pub answered : TopicRequest → Cluster → Option Error → Result Error (Unit {0}) × Cluster
answered request s none = (ok tt, record { requested = request ∷ s.requested; calls = s.calls + 1 })
answered request s (some e) = (err e, record s { calls = s.calls + 1 })

module _ (cfg : Config) where
  abbrev pub require_topics : Bool → Bool → Exec Cluster Error (Unit {0})
  require_topics found_retry found_dlq =
      if found_retry && found_dlq
      then pure tt
      else raise (
          new (
            "required topics missing (auto-creation disabled): retry_exists="
            ++ format_bool found_retry
            ++ ", dlq_exists="
            ++ format_bool found_dlq))

  abbrev pub primary_partitions : String → List TopicMetadata → Exec Cluster Error ℤ
  primary_partitions topic [] = raise (
      new (
        "no metadata found for primary topic '" ++ topic
        ++ "' during partition count auto-detection"))
  primary_partitions topic (m ∷ ms) = pure m.partitions

  abbrev pub retry_request : String → ℤ → TopicRequest
  retry_request topic partitions = record {
    name = retry_topic cfg topic;
    partitions = partitions;
    replication_factor = cfg.replication_factor;
    config = ("cleanup.policy", "delete") ∷ ("retention.ms", "3600000") ∷ [];
  }

  abbrev pub dlq_request : String → ℤ → TopicRequest
  dlq_request topic partitions = record {
    name = dlq_topic cfg topic;
    partitions = partitions;
    replication_factor = cfg.replication_factor;
    config = ("cleanup.policy", "delete") ∷ ("retention.ms", "-1") ∷ [];
  }

  abbrev pub redirect_request : String → ℤ → TopicRequest
  redirect_request topic partitions = record {
    name = redirect_topic cfg topic;
    partitions = partitions;
    replication_factor = cfg.replication_factor;
    config = ("cleanup.policy", "compact") ∷ ("segment.ms", "60000") ∷ [];
  }

  abbrev pub require_redirect_topic : String → Bool → Exec Cluster Error (Unit {0})
  require_redirect_topic topic found =
      if found
      then pure tt
      else raise (
          new (
            "required redirect topic '"
            ++ redirect_topic cfg topic
            ++ "' missing (auto-creation disabled)"))

  -- Here, missing metadata leaves the count at 0.
  abbrev pub partitions_or_zero : List TopicMetadata → ℤ
  partitions_or_zero [] = pos 0
  partitions_or_zero (m ∷ ms) = m.partitions

module _ (env : AdminEnvironment) where
  unfoldable pub describe_topics : List String → Exec Cluster Error (List TopicMetadata)
  describe_topics names s = (env.described s.calls names, record s { calls = s.calls + 1 })

  unfoldable pub create_topic : TopicRequest → Exec Cluster Error (Unit {0})
  create_topic request s = answered request s (env.create_error s.calls request)

  -- Two functions of an errgroup: both run to their end, `first` before `second`.
  unfoldable pub run_group :
      Exec Cluster Error (Unit {0}) → Exec Cluster Error (Unit {0}) → Exec Cluster Error (Unit {0})
  run_group first second s =
      let (r, s') = first s in let (r', s'') = second s' in (first_error r r', s'')

  module _ (cfg : Config) where
    -- Without automatic creation, the topics have to be there.
    unfoldable pub verify_topics : String → Exec Cluster Error (Unit {0})
    unfolding ◌>>=◌ catch
    verify_topics topic = do
      metadata ←
          annotated "failed to verify existence of topics (auto-creation disabled)"
            (describe_topics (retry_topic cfg topic ∷ dlq_topic cfg topic ∷ []))
      require_topics cfg (contains_name (retry_topic cfg topic) metadata)
          (contains_name (dlq_topic cfg topic) metadata)

    unfoldable pub partition_count : String → Exec Cluster Error ℤ
    unfolding ◌>>=◌ catch
    partition_count topic =
        if int_eq cfg.retry_topic_partitions (pos 0)
        then (do
          metadata ←
              annotated
                ("failed to describe primary topic '" ++ topic
                  ++ "' for partition count auto-detection")
                (describe_topics (topic ∷ []))
          primary_partitions cfg topic metadata)
        else pure cfg.retry_topic_partitions

    -- The two goroutines of the group, in the order in which they happen to run.
    unfoldable pub create_topics : Bool → String → ℤ → Exec Cluster Error (Unit {0})
    unfolding run_group catch
    create_topics retry_first topic partitions =
        let retry : Exec Cluster Error (Unit {0}) =
          annotated "failed to create retry topic"
            (create_topic (retry_request cfg topic partitions)) in
        let dlq : Exec Cluster Error (Unit {0}) =
          annotated "failed to create DLQ topic"
            (create_topic (dlq_request cfg topic partitions)) in
        if retry_first then run_group retry dlq else run_group dlq retry

    unfoldable pub ensure_topics_exist : Bool → String → Exec Cluster Error (Unit {0})
    unfolding ◌>>=◌
    ensure_topics_exist retry_first topic =
        if cfg.disable_auto_topic_creation
        then verify_topics topic
        else partition_count topic >>= create_topics retry_first topic

    unfoldable pub verify_redirect_topic : String → Exec Cluster Error (Unit {0})
    unfolding ◌>>=◌ catch
    verify_redirect_topic topic = do
      metadata ←
          annotated "failed to verify existence of redirect topic (auto-creation disabled)"
            (describe_topics (redirect_topic cfg topic ∷ []))
      require_redirect_topic cfg topic (contains_name (redirect_topic cfg topic) metadata)

    unfoldable pub redirect_partition_count : String → Exec Cluster Error ℤ
    unfolding ◌>>=◌ catch
    redirect_partition_count topic =
        if int_eq cfg.retry_topic_partitions (pos 0)
        then (do
          metadata ←
              annotated ("failed to describe primary topic '" ++ topic ++ "'")
                (describe_topics (topic ∷ []))
          pure (partitions_or_zero cfg metadata))
        else pure cfg.retry_topic_partitions

    unfoldable pub ensure_redirect_topic : String → Exec Cluster Error (Unit {0})
    unfolding ◌>>=◌
    ensure_redirect_topic topic =
        if cfg.disable_auto_topic_creation
        then verify_redirect_topic topic
        else redirect_partition_count topic >>= λ partitions.
            create_topic (redirect_request cfg topic partitions)

-- ===== src/Sarama/Create.antt =====
-- NewResilienceTracker of adapter/sarama/tracker.go, with the constructors of the adapters that it
-- calls. What the client library's constructors return is given, and its types are parameters.
pub mod Made
use kafka_resilience.Base.{String, Option, none, some, List}
use kafka_resilience.Base.Exec.{Result, ok, err}
use kafka_resilience.Errors.{Error}
use kafka_resilience.Config.{Config}
use kafka_resilience.Tracker.Create.{Refusal, TrackerOption, Defaults, Created, new_error_tracker}

pub record ProducerAdapter (P : Type 0) : Type 0 where
  pub producer : P

pub record ConsumerFactory (C : Type 0) : Type 0 where
  pub client : C

pub record AdminAdapter (A C : Type 0) : Type 0 where
  pub admin : A
  pub client : C

pub record ConsumerAdapter (G : Type 0) : Type 0 where
  pub consumer_group : G

-- NewAdminAdapter, with what NewClusterAdminFromClient returns.
unfoldable pub new_admin_adapter :
    {A C : Type 0} → Result Error A → C → Result Error (AdminAdapter A C)
new_admin_adapter (err e) client = err e
new_admin_adapter (ok admin) client = ok (record { admin = admin; client = client })

-- NewConsumer of ConsumerFactory, with NewConsumerGroupFromClient.
unfoldable pub new_consumer :
    {C G : Type 0}
    → (String → C → Result Error G)
    → ConsumerFactory C
    → String
    → Result Error (ConsumerAdapter G)
new_consumer group_from_client f group_id = elim (group_from_client group_id f.client) [
  | err e ↦ err e
  | ok cg ↦ ok (record { consumer_group = cg })
]

-- An error of NewResilienceTracker: the library's, or that of NewErrorTracker.
pub data Failure : Type 0 where
  library : Error → Failure
  refusal : Refusal → Failure

module _ {P A C L K B M : Type 0}
    (defaults : Defaults (ProducerAdapter P) (ConsumerFactory C) (AdminAdapter A C) L K B M)
    (cfg : Option Config) (client : C) (opts : List (TrackerOption L K B M)) where
  abbrev pub AdaptedTracker : Type 0
  AdaptedTracker = Created (ProducerAdapter P) (ConsumerFactory C) (AdminAdapter A C) L K B M

  abbrev pub or_refusal : Result Refusal AdaptedTracker → Result Failure AdaptedTracker
  or_refusal (ok t) = ok t
  or_refusal (err e) = err (refusal e)

  -- Behind the two calls of the library.
  abbrev pub adapted :
      Result Error P → Result Error (AdminAdapter A C) → Result Failure AdaptedTracker
  adapted (err e) admin = err (library e)
  adapted (ok producer) (err e) = err (library e)
  adapted (ok producer) (ok admin) = or_refusal (
      new_error_tracker defaults cfg (some (record { producer = producer }))
        (some (record { client = client })) (some admin) opts)

  unfoldable pub new_resilience_tracker :
      Result Error P → Result Error A → Result Failure AdaptedTracker
  unfolding new_admin_adapter
  new_resilience_tracker sync_producer cluster_admin =
      adapted sync_producer (new_admin_adapter cluster_admin client)

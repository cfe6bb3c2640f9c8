-- ===== src/Sarama/Create/Made.antt =====
-- When NewResilienceTracker makes a tracker.
use kafka_resilience.Base.{◌≡◌, refl, sym, ◌⊎◌, inl, inr, Option, none, some, List}
use kafka_resilience.Base.Exec.{Result, ok, err}
use kafka_resilience.Errors.{Error}
use kafka_resilience.Config.{Config}
use kafka_resilience.Config.Valid.{IsValid}
use kafka_resilience.Tracker.Create.{Refusal, TrackerOption, Defaults, Created}
use kafka_resilience.Tracker.Create.Options.{Outcome, new_error_tracker-Outcome}
use kafka_resilience.Sarama.Create.{
  ProducerAdapter, ConsumerFactory, AdminAdapter, Failure, library, refusal, or_refusal,
  new_resilience_tracker, new_admin_adapter,
}

some_inj : {A : Type 0} (a b : A) → some a ≡ some b → a ≡ b
some_inj a b h = cc

module _ {P A C L K B M : Type 0}
    (defaults : Defaults (ProducerAdapter P) (ConsumerFactory C) (AdminAdapter A C) L K B M)
    (cfg : Option Config) (client : C) (opts : List (TrackerOption L K B M)) where
  abbrev pub MadeOutcome :
      Result Error P
      → Result Error A
      → Result Failure (Created (ProducerAdapter P) (ConsumerFactory C) (AdminAdapter A C) L K B M)
      → Type 0
  MadeOutcome (ok p) (ok a) (ok t) =
      (cfg ≡ some t.cfg)
      × IsValid t.cfg
      × (t.clients.producer ≡ record { producer = p })
      × (t.clients.consumer_factory ≡ record { client = client })
      × (t.clients.admin ≡ record { admin = a; client = client })
  MadeOutcome (ok p) (ok a) (err (refusal e)) =
      (cfg ≡ none) ⊎ ((c : Config) × (cfg ≡ some c) × ¬ IsValid c)
  MadeOutcome (ok p) (ok a) (err (library e)) = ⊥
  MadeOutcome (err e) a r = r ≡ err (library e)
  MadeOutcome (ok p) (err e) r = r ≡ err (library e)

  made_of :
      (p : P) (a : A)
      (r : Result Refusal
        (Created (ProducerAdapter P) (ConsumerFactory C) (AdminAdapter A C) L K B M))
      → Outcome defaults cfg
          (some (record { producer = p }))
          (some (record { client = client }))
          (some (record { admin = a; client = client }))
          opts
          r
      → MadeOutcome (ok p) (ok a) (or_refusal defaults cfg client opts r)
  made_of p a (ok t) h =
      (h.0.0, h.0.1, sym (some_inj _ _ h.0.2), sym (some_inj _ _ h.0.3), sym (some_inj _ _ h.0.4))
  made_of p a (err e) (inl missing) = inl missing
  made_of p a (err e) (inr (inl invalid)) = inr invalid
  made_of p a (err e) (inr (inr (inl impossible))) = absurd (cc)
  made_of p a (err e) (inr (inr (inr (inl impossible)))) = absurd (cc)
  made_of p a (err e) (inr (inr (inr (inr impossible)))) = absurd (cc)

  -- Where a constructor of the library fails, NewResilienceTracker returns its error, the producer's
  -- before the admin's. Where both work, it makes a tracker from a configuration that is there and
  -- valid, with the adapters of this producer, client and admin, and refuses only because the
  -- configuration is missing or not valid: never because of a nil dependency.
  pub new_resilience_tracker-Outcome :
      (sync_producer : Result Error P) (cluster_admin : Result Error A)
      → MadeOutcome sync_producer cluster_admin
          (new_resilience_tracker defaults cfg client opts sync_producer cluster_admin)
  unfolding new_resilience_tracker new_admin_adapter
  new_resilience_tracker-Outcome (err e) cluster_admin = refl
  new_resilience_tracker-Outcome (ok p) (err e) = refl
  new_resilience_tracker-Outcome (ok p) (ok a) =
      made_of p a _ (new_error_tracker-Outcome defaults cfg _ _ _ opts)

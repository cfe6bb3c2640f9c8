-- ===== src/Admin/Topics.antt =====
-- Which topics the two functions ask for, and when they succeed.
use kafka_resilience.Base.{
  ◌+◌, String, ◌≡◌, refl, ◌⊎◌, inl, inr, Bool, Bool-cases, true, false, Option, none, some, List,
  [], ◌∷◌, if◌then◌else◌, ℤ, pos,
}
use kafka_resilience.Base.Exec.{Result, ok, err, ◌>>=◌, catch}
use kafka_resilience.Errors.{Error}
use kafka_resilience.Config.{Config, retry_topic, dlq_topic}
use kafka_resilience.Message.Values.{int_eq}
use kafka_resilience.Admin.{
  TopicMetadata, TopicRequest, Cluster, AdminEnvironment, contains_name, describe_topics,
  create_topic, run_group, annotated, verify_topics, partition_count, retry_request, dlq_request,
  create_topics, ensure_topics_exist,
}

abbrev GroupOutcome :
    TopicRequest → TopicRequest → Cluster → Result Error (Unit {0}) → Cluster → Type 0
GroupOutcome a b s (ok u) s' = s'.requested ≡ b ∷ a ∷ s.requested
GroupOutcome a b s (err e) s' =
    (s'.requested ≡ s.requested)
    ⊎ ((s'.requested ≡ a ∷ s.requested) ⊎ (s'.requested ≡ b ∷ s.requested))

module _ (env : AdminEnvironment) (a b : TopicRequest) (text text' : String) (s : Cluster) where
  abbrev grouped : Result Error (Unit {0}) × Cluster
  grouped =
      run_group env (annotated text (create_topic env a)) (annotated text' (create_topic env b)) s

  grouped_by :
      (o o' : Option Error)
      → env.create_error s.calls a ≡ o
      → env.create_error (s.calls + 1) b ≡ o'
      → GroupOutcome a b s grouped.0 grouped.1
  unfolding run_group create_topic catch
  grouped_by none none h h' = rw (h, h') refl
  grouped_by none (some e) h h' = rw (h, h') (inr (inl refl))
  grouped_by (some e) none h h' = rw (h, h') (inr (inr refl))
  grouped_by (some e) (some e') h h' = rw (h, h') (inl refl)

  run_group-Outcome : GroupOutcome a b s grouped.0 grouped.1
  run_group-Outcome = grouped_by _ _ refl refl

module _ (env : AdminEnvironment) (cfg : Config) (topic : String) where
  -- The number of partitions that is asked for: the configured one or, where that is 0, that of the
  -- primary topic.
  abbrev pub IsCount : Cluster → ℤ → Type 0
  IsCount s p =
      ((int_eq cfg.retry_topic_partitions (pos 0) ≡ false) × (p ≡ cfg.retry_topic_partitions))
      ⊎ ((int_eq cfg.retry_topic_partitions (pos 0) ≡ true)
          × (m : TopicMetadata) × (ms : List TopicMetadata) × (env.described s.calls (topic ∷ [])
              ≡ ok (m ∷ ms))
          × (p ≡ m.partitions))

  -- Both topics were found.
  abbrev pub Found : Cluster → Type 0
  Found s =
      (ms : List TopicMetadata) × (env.described s.calls
          (retry_topic cfg topic ∷ dlq_topic cfg topic ∷ [])
        ≡ ok ms)
      × (contains_name (retry_topic cfg topic) ms ≡ true)
      × (contains_name (dlq_topic cfg topic) ms ≡ true)

  abbrev pub EnsureOutcome : Bool → Cluster → Result Error (Unit {0}) → Cluster → Type 0
  EnsureOutcome retry_first s (ok u) s' =
      ((cfg.disable_auto_topic_creation ≡ true) × (s'.requested ≡ s.requested) × Found s)
      ⊎ ((cfg.disable_auto_topic_creation ≡ false)
          × (p : ℤ) × IsCount s p
          × (s'.requested ≡ (
              if retry_first
              then dlq_request cfg topic p ∷ retry_request cfg topic p ∷ s.requested
              else retry_request cfg topic p ∷ dlq_request cfg topic p ∷ s.requested)))
  EnsureOutcome retry_first s (err e) s' =
      (s'.requested ≡ s.requested)
      ⊎ ((cfg.disable_auto_topic_creation ≡ false)
          × (p : ℤ) × IsCount s p
          × ((s'.requested ≡ retry_request cfg topic p ∷ s.requested)
              ⊎ (s'.requested ≡ dlq_request cfg topic p ∷ s.requested)))

  verified :
      (retry_first : Bool) (s : Cluster) (r : Result Error (List TopicMetadata))
      → cfg.disable_auto_topic_creation ≡ true
      → env.described s.calls (retry_topic cfg topic ∷ dlq_topic cfg topic ∷ []) ≡ r
      → EnsureOutcome retry_first s
          (verify_topics env cfg topic s).0
          (verify_topics env cfg topic s).1
  unfolding verify_topics describe_topics
  verified retry_first s (err e) disabled h = rw h (inl refl)
  verified retry_first s (ok ms) disabled h =
      rw h (elim (Bool-cases (contains_name (retry_topic cfg topic) ms)) [
        | inl a ↦ elim (Bool-cases (contains_name (dlq_topic cfg topic) ms)) [
          | inl b ↦ rw (a, b) (inl (disabled, refl, (ms, h, a, b)))
          | inr b ↦ rw (a, b) (inl refl)
        ]
        | inr a ↦ rw a (inl refl)
      ])

  outcome_of :
      (retry_first : Bool) (s v : Cluster) (p : ℤ)
      → cfg.disable_auto_topic_creation ≡ false
      → IsCount s p
      → v.requested ≡ s.requested
      → (r : Result Error (Unit {0})) (w : Cluster)
      → GroupOutcome
          (if retry_first then retry_request cfg topic p else dlq_request cfg topic p)
          (if retry_first then dlq_request cfg topic p else retry_request cfg topic p)
          v
          r
          w
      → EnsureOutcome retry_first s r w
  outcome_of true s v p enabled count same (ok u) w h = inr (enabled, p, count, cc (h, same))
  outcome_of false s v p enabled count same (ok u) w h = inr (enabled, p, count, cc (h, same))
  outcome_of retry_first s v p enabled count same (err e) w (inl h) = inl (cc (h, same))
  outcome_of true s v p enabled count same (err e) w (inr (inl h)) =
      inr (enabled, p, count, inl (cc (h, same)))
  outcome_of true s v p enabled count same (err e) w (inr (inr h)) =
      inr (enabled, p, count, inr (cc (h, same)))
  outcome_of false s v p enabled count same (err e) w (inr (inl h)) =
      inr (enabled, p, count, inr (cc (h, same)))
  outcome_of false s v p enabled count same (err e) w (inr (inr h)) =
      inr (enabled, p, count, inl (cc (h, same)))

  created :
      (retry_first : Bool) (s v : Cluster) (p : ℤ)
      → cfg.disable_auto_topic_creation ≡ false
      → IsCount s p
      → v.requested ≡ s.requested
      → EnsureOutcome retry_first s
          (create_topics env cfg retry_first topic p v).0
          (create_topics env cfg retry_first topic p v).1
  unfolding create_topics
  created true s v p enabled count same = outcome_of true s v p enabled count same _ _ (
      run_group-Outcome env (retry_request cfg topic p) (dlq_request cfg topic p)
        "failed to create retry topic" "failed to create DLQ topic" v)
  created false s v p enabled count same = outcome_of false s v p enabled count same _ _ (
      run_group-Outcome env (dlq_request cfg topic p) (retry_request cfg topic p)
        "failed to create DLQ topic" "failed to create retry topic" v)

  detected :
      (retry_first : Bool) (s : Cluster) (r : Result Error (List TopicMetadata))
      → cfg.disable_auto_topic_creation ≡ false
      → int_eq cfg.retry_topic_partitions (pos 0) ≡ true
      → env.described s.calls (topic ∷ []) ≡ r
      → EnsureOutcome retry_first s
          ((partition_count env cfg topic >>= create_topics env cfg retry_first topic) s).0
          ((partition_count env cfg topic >>= create_topics env cfg retry_first topic) s).1
  unfolding partition_count describe_topics ◌>>=◌
  detected retry_first s (err e) enabled zero h = rw (zero, h) (inl refl)
  detected retry_first s (ok []) enabled zero h = rw (zero, h) (inl refl)
  detected retry_first s (ok (m ∷ ms)) enabled zero h =
      rw (zero, h)
        (created retry_first s (record s { calls = s.calls + 1 }) m.partitions enabled
          (inr (zero, m, ms, h, refl)) refl)

  configured :
      (retry_first : Bool) (s : Cluster)
      → cfg.disable_auto_topic_creation ≡ false
      → int_eq cfg.retry_topic_partitions (pos 0) ≡ false
      → EnsureOutcome retry_first s
          ((partition_count env cfg topic >>= create_topics env cfg retry_first topic) s).0
          ((partition_count env cfg topic >>= create_topics env cfg retry_first topic) s).1
  unfolding partition_count ◌>>=◌
  configured retry_first s enabled fixed =
      rw fixed (created retry_first s s cfg.retry_topic_partitions enabled (inl (fixed, refl)) refl)

  -- When ensureTopicsExist succeeds, either automatic creation is off, both topics were described by
  -- the cluster and nothing was requested; or it is on and the retry topic and the DLQ topic were
  -- both requested with one partition count: the configured one or, where 0 is configured, that of
  -- the first metadata of the primary topic. When it fails, nothing was requested or, with automatic
  -- creation on, one of the two topics with that count. This holds for both orders in which the two
  -- goroutines can run.
  pub ensure_topics_exist-Outcome :
      (retry_first : Bool) (s : Cluster)
      → EnsureOutcome retry_first s
          (ensure_topics_exist env cfg retry_first topic s).0
          (ensure_topics_exist env cfg retry_first topic s).1
  unfolding ensure_topics_exist
  ensure_topics_exist-Outcome retry_first s = elim (Bool-cases cfg.disable_auto_topic_creation) [
    | inl disabled ↦ simp disabled (verified retry_first s _ disabled refl)
    | inr enabled ↦ simp enabled (elim (Bool-cases (int_eq cfg.retry_topic_partitions (pos 0))) [
      | inl zero ↦ detected retry_first s _ enabled zero refl
      | inr fixed ↦ configured retry_first s enabled fixed
    ])
  ]

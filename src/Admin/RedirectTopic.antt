-- ===== src/Admin/RedirectTopic.antt =====
-- What ensureRedirectTopic of resilience/coordinator_kafka.go asks the cluster for.
use kafka_resilience.Base.{
  ◌+◌, String, ◌≡◌, refl, ◌⊎◌, inl, inr, Bool-cases, true, false, Option, none, some, List, [], ◌∷◌,
  ℤ, pos,
}
use kafka_resilience.Base.Exec.{Result, ok, err, ◌>>=◌, catch}
use kafka_resilience.Errors.{Error}
use kafka_resilience.Config.{Config, redirect_topic}
use kafka_resilience.Message.Values.{int_eq}
use kafka_resilience.Admin.{
  TopicMetadata, Cluster, AdminEnvironment, contains_name, describe_topics, answered, create_topic,
  redirect_request, verify_redirect_topic, redirect_partition_count, ensure_redirect_topic,
}

module _ (env : AdminEnvironment) (cfg : Config) (topic : String) where
  -- The configured number of partitions or, where that is 0, that of the first metadata of the
  -- primary topic, or 0 where there is none.
  abbrev pub IsRedirectCount : Cluster → ℤ → Type 0
  IsRedirectCount s p =
      ((int_eq cfg.retry_topic_partitions (pos 0) ≡ false) × (p ≡ cfg.retry_topic_partitions))
      ⊎ ((int_eq cfg.retry_topic_partitions (pos 0) ≡ true)
          × (((m : TopicMetadata) × (ms : List TopicMetadata) × (env.described s.calls (topic ∷ [])
                  ≡ ok (m ∷ ms))
                × (p ≡ m.partitions))
              ⊎ ((env.described s.calls (topic ∷ []) ≡ ok []) × (p ≡ pos 0))))

  abbrev pub FoundRedirect : Cluster → Type 0
  FoundRedirect s =
      (ms : List TopicMetadata) × (env.described s.calls (redirect_topic cfg topic ∷ []) ≡ ok ms)
      × (contains_name (redirect_topic cfg topic) ms ≡ true)

  abbrev pub RedirectOutcome : Cluster → Result Error (Unit {0}) → Cluster → Type 0
  RedirectOutcome s (ok u) s' =
      ((cfg.disable_auto_topic_creation ≡ true) × (s'.requested ≡ s.requested) × FoundRedirect s)
      ⊎ ((cfg.disable_auto_topic_creation ≡ false)
          × (p : ℤ) × IsRedirectCount s p
          × (s'.requested ≡ redirect_request cfg topic p ∷ s.requested))
  RedirectOutcome s (err e) s' = s'.requested ≡ s.requested

  redirect_verified :
      (s : Cluster) (r : Result Error (List TopicMetadata))
      → cfg.disable_auto_topic_creation ≡ true
      → env.described s.calls (redirect_topic cfg topic ∷ []) ≡ r
      → RedirectOutcome s
          (verify_redirect_topic env cfg topic s).0
          (verify_redirect_topic env cfg topic s).1
  unfolding verify_redirect_topic describe_topics ◌>>=◌ catch
  redirect_verified s (err e) disabled h = rw h refl
  redirect_verified s (ok ms) disabled h =
      rw h (elim (Bool-cases (contains_name (redirect_topic cfg topic) ms)) [
        | inl a ↦ rw a (inl (disabled, refl, (ms, h, a)))
        | inr a ↦ rw a refl
      ])

  requested :
      (s v : Cluster) (p : ℤ) (o : Option Error)
      → cfg.disable_auto_topic_creation ≡ false
      → IsRedirectCount s p
      → v.requested ≡ s.requested
      → RedirectOutcome s
          (answered (redirect_request cfg topic p) v o).0
          (answered (redirect_request cfg topic p) v o).1
  requested s v p none enabled count same = inr (enabled, p, count, rw same refl)
  requested s v p (some e) enabled count same = same

  abbrev counted_and_asked : Cluster → Result Error (Unit {0}) × Cluster
  counted_and_asked = redirect_partition_count env cfg topic >>= λ partitions.
      create_topic env (redirect_request cfg topic partitions)

  redirect_detected :
      (s : Cluster) (r : Result Error (List TopicMetadata))
      → cfg.disable_auto_topic_creation ≡ false
      → int_eq cfg.retry_topic_partitions (pos 0) ≡ true
      → env.described s.calls (topic ∷ []) ≡ r
      → RedirectOutcome s (counted_and_asked s).0 (counted_and_asked s).1
  unfolding redirect_partition_count describe_topics create_topic ◌>>=◌ catch
  redirect_detected s (err e) enabled zero h = rw (zero, h) refl
  redirect_detected s (ok []) enabled zero h =
      rw (zero, h)
        (requested s (record s { calls = s.calls + 1 }) (pos 0) _ enabled
          (inr (zero, inr (h, refl))) refl)
  redirect_detected s (ok (m ∷ ms)) enabled zero h =
      rw (zero, h)
        (requested s (record s { calls = s.calls + 1 }) m.partitions _ enabled
          (inr (zero, inl (m, ms, h, refl))) refl)

  redirect_configured :
      (s : Cluster)
      → cfg.disable_auto_topic_creation ≡ false
      → int_eq cfg.retry_topic_partitions (pos 0) ≡ false
      → RedirectOutcome s (counted_and_asked s).0 (counted_and_asked s).1
  unfolding redirect_partition_count create_topic ◌>>=◌
  redirect_configured s enabled fixed =
      rw fixed (requested s s cfg.retry_topic_partitions _ enabled (inl (fixed, refl)) refl)

  -- When ensureRedirectTopic succeeds, either automatic creation is off, the redirect topic was
  -- described by the cluster and nothing was requested; or it is on and the compacted redirect topic
  -- was requested with the configured partition count or, where 0 is configured, with that of the
  -- first metadata of the primary topic, or with 0 partitions where the answer holds no metadata. When
  -- it fails, nothing was requested.
  pub ensure_redirect_topic-Outcome :
      (s : Cluster)
      → RedirectOutcome s
          (ensure_redirect_topic env cfg topic s).0
          (ensure_redirect_topic env cfg topic s).1
  unfolding ensure_redirect_topic
  ensure_redirect_topic-Outcome s = elim (Bool-cases cfg.disable_auto_topic_creation) [
    | inl disabled ↦ simp disabled (redirect_verified s _ disabled refl)
    | inr enabled ↦ simp enabled (elim (Bool-cases (int_eq cfg.retry_topic_partitions (pos 0))) [
      | inl zero ↦ redirect_detected s _ enabled zero refl
      | inr fixed ↦ redirect_configured s enabled fixed
    ])
  ]

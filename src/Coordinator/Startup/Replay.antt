-- ===== src/Coordinator/Startup/Replay.antt =====
-- The locks that restoreState leaves, against a count of the records of the redirect topic.
use kafka_resilience.Base.{
  ℕ, ◌+◌, ◌-◌, String, ◌≡◌, refl, sym, ap, subst, ◌∙◌, inl, inr, Bool-cases, false, Option,
  Option-cases, none, some, List, [], ◌∷◌, if◌then◌else◌,
}
use kafka_resilience.Base.Exec.{Result, ok, err, ◌>>=◌, ◌>>◌}
use kafka_resilience.Errors.{Error}
use kafka_resilience.Locks.Counts.{same}
use kafka_resilience.Locks.WellFormed.{IsWellFormed}
use kafka_resilience.Locks.Local.{
  refs-acquire, refs-release, acquire-IsWellFormed, release-IsWellFormed,
}
use kafka_resilience.Message.Headers.{get}
use kafka_resilience.Message.Headers.Laws.{IsDistinct}
use kafka_resilience.Message.Headers.Copy.{get-copy}
use kafka_resilience.Message.Envelope.{Envelope, new_from_message}
use kafka_resilience.Message.Values.{header_topic, header_key}
use kafka_resilience.Message.Values.RoundTrip.{get_text}
use kafka_resilience.World.{World}
use kafka_resilience.Coordinator.{
  Coordinator, is_echo, process_redirect_message, release_message, acquire_message,
}
use kafka_resilience.Coordinator.Announce.{count, lock_topic_of_header}
use kafka_resilience.Coordinator.Redirects.{lock_of}
use kafka_resilience.Coordinator.Offsets.{Offsets, Consumer, fill_handle, settle_fill}
use kafka_resilience.Config.{Config, redirect_topic}
use kafka_resilience.Admin.{TopicMetadata, describe_topics}
use kafka_resilience.Coordinator.Startup.{
  Startup, StartEnvironment, fill_all, has_data, created, refill, restore_from, restored,
  describe_redirect_topic, restore_state,
}

-- What a record of the redirect topic does to the locks of an instance.
pub data Effect : Type 0 where
  nothing : Effect
  locks : String → String → Effect
  unlocks : String → String → Effect

abbrev pub named : (String → String → Effect) → Option String → Option String → Effect
named f (some t) (some key) = f t key
named f (some t) none = nothing
named f none key = nothing

-- A record of the instance itself does nothing. A tombstone takes a reference of the topic it names
-- and of its own key, any other record adds one of the topic and key it names; one without both
-- names does nothing.
unfoldable pub effect : Coordinator → Envelope → Effect
effect k msg = if is_echo k msg then nothing else elim msg.payload [
  | none ↦
      named (λ t key. unlocks t msg.key) (get header_topic msg.headers) (get header_key msg.headers)
  | some p ↦ named locks (get header_topic msg.headers) (get header_key msg.headers)
]

abbrev pub applied : Effect → String → String → ℕ → ℕ
applied nothing t key n = n
applied (locks t' key') t key n = if same t' key' t key then n + 1 else n
applied (unlocks t' key') t key n = if same t' key' t key then n - 1 else n

-- The references of a topic and key behind the records.
unfoldable pub replayed : Coordinator → String → String → ℕ → List Envelope → ℕ
replayed k t key n [] = n
replayed k t key n (msg ∷ msgs) = replayed k t key (applied (effect k msg) t key n) msgs

unfoldable pub AllDistinct : List Envelope → Type 0
AllDistinct [] = Unit
AllDistinct (msg ∷ msgs) = IsDistinct msg.headers × AllDistinct msgs

-- The locks of `w'` are those of `w` under the effect.
abbrev Follows : Effect → World → World → Type 0
Follows e w w' =
    IsWellFormed w'.locks × ((t key : String) → count w' t key ≡ applied e t key (count w t key))

module _ (w : World) (wf : IsWellFormed w.locks) where
  locked_by :
      (msg : Envelope) (o p : Option String)
      → get header_topic msg.headers ≡ o
      → get header_key msg.headers ≡ p
      → Follows (named locks o p) w (acquire_message msg w).1
  unfolding acquire_message ◌>>=◌
  locked_by msg none p h h' = rw h (wf, λ t key. refl)
  locked_by msg (some t) none h h' = rw (h, h') (wf, λ t key. refl)
  locked_by msg (some t) (some key) h h' =
      rw (h, h')
        (
          acquire-IsWellFormed t (lock_of t key) w.locks wf,
          λ t' j. refs-acquire t (lock_of t key) w.locks t' j wf,
        )

  unlocked_by :
      (msg : Envelope) (o p : Option String)
      → get header_topic msg.headers ≡ o
      → get header_key msg.headers ≡ p
      → Follows (named (λ t key. unlocks t msg.key) o p) w (release_message msg w).1
  unfolding release_message ◌>>=◌
  unlocked_by msg none p h h' = rw (get_text, h) (wf, λ t key. refl)
  unlocked_by msg (some t) none h h' = rw (get_text, h, get_text, h') (wf, λ t key. refl)
  unlocked_by msg (some t) (some key) h h' =
      rw (get_text, h, get_text, h')
        (
          release-IsWellFormed msg w.locks wf,
          λ t' j. refs-release msg w.locks t' j ∙ rw (lock_topic_of_header msg t h) refl,
        )

  process-Follows :
      (k : Coordinator) (msg : Envelope)
      → IsDistinct msg.headers
      → Follows (effect k msg) w (process_redirect_message k msg w).1
  unfolding process_redirect_message effect new_from_message kafka_resilience.Locks.release
      kafka_resilience.Locks.lock_topic
  process-Follows k msg distinct = elim (Bool-cases (is_echo k msg)) [
    | inl own ↦ simp own (wf, λ t key. refl)
    | inr foreign ↦ elim (Option-cases msg.payload) [
      | inl none_left ↦
          simp (foreign, none_left)
            (unlocked_by (new_from_message msg) _ _ (get-copy header_topic msg.headers distinct)
              (get-copy header_key msg.headers distinct))
      | inr (p, has_payload) ↦ simp (foreign, has_payload) (locked_by msg _ _ refl refl)
    ]
  ]

settled_world :
    (targets : Offsets) (msg : Envelope) (s : Consumer) (p : Result Error (Unit {0}) × World)
    → (settle_fill targets msg s p).1.world ≡ p.1
settled_world targets msg s (ok u, w) = refl
settled_world targets msg s (err e, w) = refl

replayed_from :
    (k : Coordinator) (targets : Offsets) (msgs : List Envelope) (s : Consumer)
    → IsWellFormed s.world.locks
    → AllDistinct msgs
    → IsWellFormed (fill_all k targets msgs s).world.locks
      × ((t key : String)
          → count (fill_all k targets msgs s).world t key
            ≡ replayed k t key (count s.world t key) msgs)
unfolding fill_all replayed AllDistinct fill_handle
replayed_from k targets [] s wf distinct = (wf, λ t key. refl)
replayed_from k targets (msg ∷ msgs) s wf distinct =
    let followed : Consumer = (fill_handle k targets msg s).1 in
    let (wf', counts) = process-Follows s.world wf k msg distinct.0 in
    let same_world : followed.world ≡ (process_redirect_message k msg s.world).1 =
      settled_world targets msg s (process_redirect_message k msg s.world) in
    let (wf'', more) =
      replayed_from k targets msgs followed (subst (λ w. IsWellFormed w.locks) (sym same_world) wf')
        distinct.1 in
    (
      wf'',
      λ t key.
          more t key
          ∙ ap (λ n. replayed k t key n msgs) (ap (λ w. count w t key) same_world ∙ counts t key),
    )

module _ (env : StartEnvironment) (k : Coordinator) where
  -- The records that a restore gets from the redirect topic.
  abbrev pub records_of_consumer : Option Error → List Envelope
  records_of_consumer none = env.handled
  records_of_consumer (some e) = []

  abbrev pub restored_records : Result Error (List TopicMetadata) → List Envelope
  restored_records (err e) = []
  restored_records (ok []) = []
  restored_records (ok (m ∷ ms)) =
      if has_data m.partition_offsets
      then records_of_consumer (env.new_consumer env.group_id)
      else []

  abbrev pub Replays : List Envelope → Startup → Startup → Type 0
  Replays records s s' =
      IsWellFormed s'.world.locks
      × ((t key : String) → count s'.world t key ≡ replayed k t key (count s.world t key) records)

  module _ (s : Startup) (wf : IsWellFormed s.world.locks)
      (distinct : AllDistinct env.handled) where
    refilled-Replays :
        (targets : Offsets) (o : Option Error)
        → Replays (records_of_consumer o) s ((created o >> refill env k targets) s).1
    unfolding ◌>>=◌ refill replayed
    refilled-Replays targets none =
        replayed_from k targets env.handled
          (record { world = s.world; consumed = []; cancelled = false }) wf distinct
    refilled-Replays targets (some e) = (wf, λ t key. refl)

    restored-Replays :
        (r : Result Error (List TopicMetadata))
        → Replays (restored_records r) s (restored env k r s).1
    unfolding restore_from replayed
    restored-Replays (err e) = (wf, λ t key. refl)
    restored-Replays (ok []) = (wf, λ t key. refl)
    restored-Replays (ok (m ∷ ms)) = elim (Bool-cases (has_data m.partition_offsets)) [
      | inl full ↦ rw full (refilled-Replays m.partition_offsets (env.new_consumer env.group_id))
      | inr empty ↦ rw empty (wf, λ t key. refl)
    ]

-- restoreState, from a well-formed lock map, when no message that the restoring consumer handles has
-- two headers of one key: the lock map stays well formed, and the references of every topic and key
-- are the old ones, one more for each record that names the topic and key, and one less (but not
-- below 0) for each tombstone that names the topic and whose own key is the key. The records are
-- those of other instances among the messages that the consumer handled; there are none if the
-- redirect topic cannot be described, has no metadata or no data, or the consumer is not created.
-- This holds whichever error Consume ends with.
pub restore_state-Replays :
    (env : StartEnvironment) (k : Coordinator) (cfg : Config) (topic : String) (s : Startup)
    → IsWellFormed s.world.locks
    → AllDistinct env.handled
    → Replays env k
        (restored_records env k
          (env.admin.described s.cluster.calls (redirect_topic cfg topic ∷ [])))
        s
        (restore_state env k cfg topic s).1
unfolding restore_state describe_redirect_topic describe_topics
restore_state-Replays env k cfg topic s wf distinct =
    restored-Replays env k (describe_redirect_topic env k cfg topic s).1 wf distinct _

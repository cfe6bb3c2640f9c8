-- ===== src/Tracker/Order.antt =====
-- Strict ordering over a whole claim: the loop of adapter/sarama/consumer.go around the resilient
-- handler of resilience/tracker.go, against a plain list of the messages that have to be queued.
pub mod Queue
pub mod Unlock
pub mod Shared
pub mod Recovery
use kafka_resilience.Base.{
  ℕ, ◌+◌, ◌≡◌, ◌≢◌, ◌<◌, refl, sym, ap, ◌∙◌, String, Bool, Bool-cases, inl, inr, true, false, ◌||◌,
  ◌==◌, Option, none, some, List, [], ◌∷◌, map, if◌then◌else◌, leb_ℤ, ltb, arith, eq_refl,
}
use kafka_resilience.Base.Exec.{Result, ok, err, is_err}
use kafka_resilience.Errors.{Error}
use kafka_resilience.Locks.WellFormed.{IsWellFormed}
use kafka_resilience.Message.Envelope.{Envelope, new_from_message}
use kafka_resilience.World.{World, Sent, Environment}
use kafka_resilience.World.Retry.{IsRetrying}
use kafka_resilience.Coordinator.{Coordinator}
use kafka_resilience.Coordinator.Announce.{count, Announces}
use kafka_resilience.Sarama.Consumer.{message, Claim, consume_claim}
use kafka_resilience.Sarama.Consumer.Marks.{consume_claim_err, consume_claim_ok}
use kafka_resilience.Tracker.{Tracker, Handler, attempt_of, original_topic_of}
use kafka_resilience.Tracker.Locking.{IsLocking}
use kafka_resilience.Tracker.Redirect.{Entered, IsRetryOf}
use kafka_resilience.Tracker.Redirects.{is_marked}
use kafka_resilience.Tracker.Chain.{resilient_handle}
use kafka_resilience.Tracker.Handlers.{
  MayRetryAfter, HandledOutcome, Entered-of, resilient_handle_keeps_order, resilient_handle_handles,
}
use kafka_resilience.Tracker.Order.Queue.{
  Verdict, judging, queued, IsFresh, All, Queued, nothing, queue, occurrences,
}

count_positive : (c : ℕ) → ltb 0 c ≡ true → 0 < c
count_positive c h = ground arith

some-ne-none : (r : Result Error (Unit {0})) → some r ≢ none
some-ne-none r h = cc

count_zero : (c : ℕ) → ltb 0 c ≡ false → c ≡ 0
count_zero c h = ground arith

module _ (env : Environment) (retrying : IsRetrying env) (k : Coordinator) (t : Tracker)
    (law : IsLocking k t.coordinator) (topic : String) (verdict : Verdict)
    (may : (msg : Envelope) → MayRetryAfter (verdict msg)) where
  abbrev pub handle : Handler
  handle = resilient_handle env t (judging verdict)

  -- A message that was taken was queued, or it changed nothing.
  abbrev Taken : Envelope → World → World → Bool → Type 0
  Taken msg w w' true = Entered k t (attempt_of (new_from_message msg)) (new_from_message msg) w w'
  Taken msg w w' false = w' ≡ w

  -- The messages were queued, nothing else was sent, and each key of the topic has one reference more
  -- for each of its messages.
  abbrev pub Kept : List Envelope → World → World → Type 0
  Kept msgs w w' =
      Queued k t msgs w.sent w'.sent
      × ((j : String) → count w' topic j ≡ count w topic j + occurrences j msgs)
      × IsWellFormed w'.locks

  -- The keys that are blocked are those that are counted.
  abbrev pub Matching : (String → Bool) → World → Type 0
  Matching blocked w = (j : String) → blocked j ≡ ltb 0 (count w topic j)

  blocked-Taken :
      (msg : Envelope) (w : World)
      → IsFresh t topic msg
      → IsWellFormed w.locks
      → ltb 0 (count w topic msg.key) ≡ true
      → (handle msg w).0 ≡ ok tt
      → Taken msg w (handle msg w).1 true
  blocked-Taken msg w fresh wf counted done =
      Entered-of env k t _ (new_from_message msg) w (handle msg w).1 (handle msg w).0 done (
        (resilient_handle_keeps_order env retrying k t law msg w wf
          (rw fresh.to_topic (count_positive _ counted)) fresh.unmarked fresh.below
          (judging verdict) (judging verdict)).1)

  settled-Taken :
      (msg : Envelope) (w w' : World) (v r : Result Error (Unit {0}))
      → HandledOutcome env k t msg (v, w) r w'
      → r ≡ ok tt
      → Taken msg w w' (is_err v)
  settled-Taken msg w w' (ok u) r h done = h.1
  settled-Taken msg w w' (err e) r h done =
      Entered-of env k t (attempt_of (new_from_message msg)) (new_from_message msg) w w' r done h

  handle-Taken :
      (msg : Envelope) (w : World) (blocked : String → Bool)
      → IsFresh t topic msg
      → IsWellFormed w.locks
      → Matching blocked w
      → (handle msg w).0 ≡ ok tt
      → Taken msg w (handle msg w).1 (blocked msg.key || is_err (verdict msg))
  handle-Taken msg w blocked fresh wf blocks done = elim (Bool-cases (blocked msg.key)) [
    | inl b ↦ rw b (blocked-Taken msg w fresh wf (sym (blocks msg.key) ∙ b) done)
    | inr b ↦ rw b (
        settled-Taken msg w (handle msg w).1 (verdict msg) (handle msg w).0
          (resilient_handle_handles env retrying k t law msg fresh.unmarked fresh.below
            (judging verdict) w (rw fresh.to_topic (count_zero _ (sym (blocks msg.key) ∙ b)))
            (may msg) wf)
          done)
  ]

  key_of_copy : (msg : Envelope) → (new_from_message msg).key ≡ msg.key
  unfolding new_from_message
  key_of_copy msg = refl

  -- What is blocked behind a message.
  abbrev blocked_behind : (String → Bool) → Envelope → Bool → String → Bool
  blocked_behind blocked msg queues j =
      if queues then (if msg.key == j then true else blocked j) else blocked j

  Matching-behind :
      (b : Bool) (blocked : String → Bool) (msg : Envelope) (w w' : World)
      → IsFresh t topic msg
      → Taken msg w w' b
      → Matching blocked w
      → Matching (blocked_behind blocked msg b) w'
  Matching-behind true blocked msg w w' fresh h blocks j =
      ground (arith, h.counts topic j, fresh.own_topic, key_of_copy msg, eq_refl topic, blocks j)
  Matching-behind false blocked msg w w' fresh h blocks j = rw h (blocks j)

  wf_behind :
      (b : Bool) (msg : Envelope) (w w' : World)
      → Taken msg w w' b
      → IsWellFormed w.locks
      → IsWellFormed w'.locks
  wf_behind true msg w w' h wf = h.well_formed
  wf_behind false msg w w' h wf = rw h wf

  Kept-behind :
      (b : Bool) (msg : Envelope) (msgs : List Envelope) (w w' v : World)
      → IsFresh t topic msg
      → Taken msg w w' b
      → Kept msgs w' v
      → Kept (if b then msg ∷ msgs else msgs) w v
  Kept-behind true msg msgs w w' v fresh h (sent, counts, wf) = (
    queue h.lock h.retried h.lock_id h.announces h.is_retry (rw (← h.sent) sent),
    (λ j.
        ground
          (arith, counts j, h.counts topic j, fresh.own_topic, key_of_copy msg, eq_refl topic)),
    wf,
  )
  Kept-behind false msg msgs w w' v fresh h kept = rw (← h) kept

  -- Behind the handler's call on the first message of a claim, with its outcome.
  claim_step :
      (msg : Envelope) (msgs : List Envelope) (c : Claim World) (blocked : String → Bool)
      (q : Result Error (Unit {0}) × World)
      → IsFresh t topic msg
      → IsWellFormed c.state.locks
      → Matching blocked c.state
      → ((blocked' : String → Bool) (d : Claim World)
          → IsWellFormed d.state.locks
          → Matching blocked' d.state
          → (consume_claim handle (map message msgs) d).0 ≡ none
          → Kept
              (queued verdict blocked' msgs)
              d.state
              (consume_claim handle (map message msgs) d).1.state)
      → handle msg c.state ≡ q
      → (consume_claim handle (map message (msg ∷ msgs)) c).0 ≡ none
      → Kept
          (queued verdict blocked (msg ∷ msgs))
          c.state
          (consume_claim handle (map message (msg ∷ msgs)) c).1.state
  claim_step msg msgs c blocked (err e, s) fresh wf blocks more h done = absurd (
      some-ne-none (err e) (
        sym (
          ap (λ (p : Option (Result Error (Unit {0})) × Claim World). p.0)
            (consume_claim_err handle msg (map message msgs) c e s h))
        ∙ done))
  claim_step msg msgs c blocked (ok u, s) fresh wf blocks more h done =
      let b : Bool = blocked msg.key || is_err (verdict msg) in
      let step : consume_claim handle (message msg ∷ map message msgs) c
          ≡ consume_claim handle (map message msgs)
              (record { state = s; marked = msg ∷ c.marked }) =
        consume_claim_ok handle msg (map message msgs) c s h in
      let one : Taken msg c.state s b = rw (← ap (λ (p : Result Error (Unit {0}) × World). p.1) h) (
        handle-Taken msg c.state blocked fresh wf blocks
          (ap (λ (p : Result Error (Unit {0}) × World). p.0) h)) in
      let next : Claim World = record { state = s; marked = msg ∷ c.marked } in
      let rest : List Envelope = queued verdict (blocked_behind blocked msg b) msgs in
      rw step (
        Kept-behind b msg rest c.state s (consume_claim handle (map message msgs) next).1.state
          fresh one
          (more (blocked_behind blocked msg b) next (wf_behind b msg c.state s one wf)
            (Matching-behind b blocked msg c.state s fresh one blocks) (rw (← step) done)))

  -- Strict ordering over a claim: where the resilient handler takes every message of a claim of fresh
  -- messages of one topic, and the user's handler touches no lock and fails only with errors that may
  -- be tried again, the retry messages that are sent, each behind its lock record, are in the order of
  -- the claim exactly those of the messages that fail or that stand behind one of their key that
  -- failed or was locked before, and nothing else is sent; and each key of the topic has as many
  -- references more as it has messages among the queued ones.
  pub claim_keeps_order :
      (msgs : List Envelope)
      → All (IsFresh t topic) msgs
      → (blocked : String → Bool) (c : Claim World) → IsWellFormed c.state.locks
      → Matching blocked c.state
      → (consume_claim handle (map message msgs) c).0 ≡ none
      → Kept
          (queued verdict blocked msgs)
          c.state
          (consume_claim handle (map message msgs) c).1.state
  unfolding consume_claim
  claim_keeps_order [] fresh blocked c wf blocks done = (nothing, λ j. omega arith, wf)
  claim_keeps_order (msg ∷ msgs) fresh blocked c wf blocks done =
      claim_step msg msgs c blocked _ fresh.0 wf blocks (claim_keeps_order msgs fresh.1) refl done

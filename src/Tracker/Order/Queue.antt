-- ===== src/Tracker/Order/Queue.antt =====
-- What a claim of messages has to queue: the plain list against which the resilient handler is compared,
-- and what is sent for it.
use kafka_resilience.Base.{
  ℕ, ◌+◌, ◌≡◌, String, Bool, true, false, ◌||◌, ◌==◌, List, [], ◌∷◌, if◌then◌else◌, leb_ℤ,
}
use kafka_resilience.Base.Exec.{Result, is_err}
use kafka_resilience.Errors.{Error}
use kafka_resilience.Message.Envelope.{Envelope, new_from_message}
use kafka_resilience.World.{Sent}
use kafka_resilience.Coordinator.{Coordinator}
use kafka_resilience.Coordinator.Announce.{Announces}
use kafka_resilience.Tracker.{Tracker, Handler, attempt_of, original_topic_of}
use kafka_resilience.Tracker.Redirect.{IsRetryOf}
use kafka_resilience.Tracker.Redirects.{is_marked}

-- What the user's handler makes of each message; it leaves the process's state alone.
abbrev pub Verdict : Type 0
Verdict = Envelope → Result Error (Unit {0})

abbrev pub judging : Verdict → Handler
judging verdict msg w = (verdict msg, w)

-- The messages that have to be queued, in their order: those that fail, and those behind one of their
-- key. `blocked` are the keys that are blocked at the beginning.
abbrev pub queued : Verdict → (String → Bool) → List Envelope → List Envelope
queued verdict blocked [] = []
queued verdict blocked (msg ∷ msgs) =
    let queues : Bool = blocked msg.key || is_err (verdict msg) in
    let rest : List Envelope =
      queued verdict (λ j. if queues then (if msg.key == j then true else blocked j) else blocked j)
        msgs in
    if queues then msg ∷ rest else rest

-- A message of the topic as it is consumed for the first time, with retries left.
pub record IsFresh (t : Tracker) (topic : String) (msg : Envelope) : Type 0 where
  pub to_topic : msg.topic ≡ topic
  pub own_topic : original_topic_of (new_from_message msg) ≡ topic
  pub unmarked : is_marked (new_from_message msg) ≡ false
  pub below : leb_ℤ t.cfg.max_retries (attempt_of (new_from_message msg)) ≡ false

abbrev pub All : (Envelope → Type 0) → List Envelope → Type 0
All P [] = Unit
All P (msg ∷ msgs) = P msg × All P msgs

-- For each message, its lock record and then its retry message were sent, and nothing else.
pub data Queued (k : Coordinator) (t : Tracker)
    : List Envelope → List Sent → List Sent → Type 0 where
  nothing : {s : List Sent} → Queued k t [] s s
  queue :
      {msg : Envelope} {msgs : List Envelope} {s s' : List Sent} (lock retried : Sent)
      (lock_id : String)
      → Announces k (original_topic_of (new_from_message msg)) lock_id (new_from_message msg) lock
      → IsRetryOf t lock_id (attempt_of (new_from_message msg)) (new_from_message msg) retried
      → Queued k t msgs (retried ∷ lock ∷ s) s'
      → Queued k t (msg ∷ msgs) s s'

-- The number of the messages with a key.
abbrev pub occurrences : String → List Envelope → ℕ
occurrences j [] = 0
occurrences j (msg ∷ msgs) = (if msg.key == j then 1 else 0) + occurrences j msgs

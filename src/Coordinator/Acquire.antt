-- ===== src/Coordinator/Acquire.antt =====
-- Acquire as a whole: the id and the topic that it puts on the message, and the lock behind it.
use kafka_resilience.Base.{
  ◌+◌, String, ◌≡◌, Option, none, some, ◌==◌, if◌then◌else◌, arith, eq_iff, or_else, ◌≢◌, ◌∙◌, ap,
}
use kafka_resilience.Base.Exec.{Result, ok, err, ◌>>=◌}
use kafka_resilience.Errors.{Error}
use kafka_resilience.Locks.WellFormed.{IsWellFormed}
use kafka_resilience.Message.Headers.{get, set}
use kafka_resilience.Message.Headers.Laws.{get-set, IsDistinct, set-IsDistinct}
use kafka_resilience.Message.Envelope.{Envelope}
use kafka_resilience.Message.Values.{Kind, get_header_value, put_header, header_id, header_topic}
use kafka_resilience.Message.Values.RoundTrip.{get_text, put_text}
use kafka_resilience.World.{World, Environment, new_uuid}
use kafka_resilience.World.Retry.{IsRetrying}
use kafka_resilience.Coordinator.{Coordinator, acquire, ensure_id, ensure_topic, announce_lock}
use kafka_resilience.Coordinator.Announce.{
  Locked, Unchanged, AcquireOutcome, lock_topic_of_header, announce_lock-Outcome,
}

-- What Acquire leaves on the message: an id and a topic, its own where it had them, and everything
-- else as it was.
pub record Labelled (topic id : String) (before after : Envelope) : Type 0 where
  pub has_id : get header_id after.headers ≡ some id
  pub topic_header :
      get header_topic after.headers ≡ some (or_else (get header_topic before.headers) topic)
  pub keeps_id : (own_id : String) → get header_id before.headers ≡ some own_id → id ≡ own_id
  pub same_key : after.key ≡ before.key
  pub same_topic : after.topic ≡ before.topic
  pub same_payload : after.payload ≡ before.payload
  pub distinct : IsDistinct before.headers → IsDistinct after.headers
  pub other_headers :
      (j : String) → header_id ≢ j → header_topic ≢ j → get j after.headers ≡ get j before.headers

abbrev pub own_topic : String → Envelope → String
own_topic t msg = or_else (get header_topic msg.headers) t

ensure_topic-headers :
    (t : String) (msg : Envelope)
    → (get header_topic (ensure_topic t msg).headers ≡ some (own_topic t msg))
      × ((ensure_topic t msg).key ≡ msg.key)
      × ((ensure_topic t msg).topic ≡ msg.topic)
      × ((ensure_topic t msg).payload ≡ msg.payload)
unfolding ensure_topic
ensure_topic-headers t msg = ground (
  arith,
  get_text msg.headers header_topic,
  put_text msg.headers header_topic t,
  get-set header_topic header_topic t msg.headers,
)

ensure_topic_others :
    (t : String) (msg : Envelope) (j : String)
    → header_topic ≢ j
    → get j (ensure_topic t msg).headers ≡ get j msg.headers
unfolding ensure_topic
ensure_topic_others t msg j ne = ground (
  arith,
  get_text msg.headers header_topic,
  put_text msg.headers header_topic t,
  get-set header_topic j t msg.headers,
  eq_iff header_topic j,
)

ensure_topic-IsDistinct :
    (t : String) (msg : Envelope) → IsDistinct msg.headers → IsDistinct (ensure_topic t msg).headers
unfolding ensure_topic
ensure_topic-IsDistinct t msg h =
    elim (get_header_value Kind.text msg.headers header_topic)
      as (λ o.
        let m : Envelope = elim o [
          | some own ↦ msg
          | none ↦ record msg { headers = put_header Kind.text msg.headers header_topic t }
        ] in
        IsDistinct m.headers) [
          | none ↦ rw put_text (set-IsDistinct header_topic t msg.headers h)
          | some own ↦ h
        ]

abbrev label_id : Environment → Envelope → World → String
label_id env msg w = or_else (get header_id msg.headers) (env.new_id w.id_calls)

abbrev label_message : Environment → Envelope → World → Envelope
label_message env msg w = elim (get header_id msg.headers) [
  | some id ↦ msg
  | none ↦ record msg { headers = set header_id (env.new_id w.id_calls) msg.headers }
]

abbrev label_world : Envelope → World → World
label_world msg w = elim (get header_id msg.headers) [
  | some id ↦ w
  | none ↦ record w { id_calls = w.id_calls + 1 }
]

module _ (env : Environment) where
  ensure_id_lem :
      (msg : Envelope) (w : World)
      → ensure_id env msg w ≡ (ok (label_id env msg w, label_message env msg w), label_world msg w)
  unfolding ensure_id new_uuid ◌>>=◌
  ensure_id_lem msg w = ground (
    arith,
    get_text msg.headers header_id,
    put_text msg.headers header_id (env.new_id w.id_calls),
  )

  label_headers :
      (msg : Envelope) (w : World) (j : String)
      → get j (label_message env msg w).headers
        ≡ (if header_id == j then some (label_id env msg w) else get j msg.headers)
  label_headers msg w j =
      ground (arith, get-set header_id j (env.new_id w.id_calls) msg.headers, eq_iff header_id j)

  label_message-IsDistinct :
      (msg : Envelope) (w : World)
      → IsDistinct msg.headers
      → IsDistinct (label_message env msg w).headers
  label_message-IsDistinct msg w h =
      elim (get header_id msg.headers)
        as (λ o.
          let m : Envelope = elim o [
            | some id ↦ msg
            | none ↦ record msg { headers = set header_id (env.new_id w.id_calls) msg.headers }
          ] in
          IsDistinct m.headers) [
            | none ↦ set-IsDistinct header_id (env.new_id w.id_calls) msg.headers h
            | some id ↦ h
          ]

  topic_ne_id : header_topic ≢ header_id
  topic_ne_id = ground (arith, eq_iff header_topic header_id)

  label-Labelled :
      (t : String) (msg : Envelope) (w : World)
      → Labelled t (label_id env msg w) msg (ensure_topic t (label_message env msg w))
  label-Labelled t msg w =
      let m : Envelope = label_message env msg w in
      let (topic, same_key, same_topic, same_payload) = ensure_topic-headers t m in
      record {
        has_id = ensure_topic_others t m header_id topic_ne_id ∙ label_headers msg w header_id;
        topic_header = topic ∙ ap (λ o. some (or_else o t)) (label_headers msg w header_topic);
        keeps_id = λ own e. rw e;
        same_key = ground (arith, same_key);
        same_topic = ground (arith, same_topic);
        same_payload = ground (arith, same_payload);
        distinct = λ h. ensure_topic-IsDistinct t m (label_message-IsDistinct msg w h);
        other_headers = λ j ne ne'.
            ensure_topic_others t m j ne'
            ∙ ground (arith, label_headers msg w j, eq_iff header_id j);
      }

  acquire_lem :
      (k : Coordinator) (t : String) (msg : Envelope) (w : World)
      → acquire env k t msg w
        ≡ announce_lock env k t
            (label_id env msg w)
            (ensure_topic t (label_message env msg w))
            (label_world msg w)
  unfolding acquire
  acquire_lem k t msg w = rw ensure_id_lem

-- What Acquire promises of its result and the state behind it.
abbrev pub AcquireSpec :
    Coordinator → String → Envelope → World → Result Error Envelope → World → Type 0
AcquireSpec k t msg w (ok m) w' = (id : String) × Labelled t id msg m × Locked k t id m w w'
AcquireSpec k t msg w (err e) w' = Unchanged w w'

AcquireSpec-of :
    (k : Coordinator) (t id : String) (msg m : Envelope) (w v w' : World)
    (r : Result Error Envelope)
    → v.locks ≡ w.locks
    → v.sent ≡ w.sent
    → Labelled t id msg m
    → AcquireOutcome k t id m v r w'
    → AcquireSpec k t msg w r w'
AcquireSpec-of k t id msg m w v w' (ok m') locks sent l (e, h) = (
  id,
  rw e l,
  record {
    counts = λ t' j. rw (e, ← locks) (h.counts t' j);
    lock = h.lock;
    announced = rw (← sent) h.announced;
    announces = rw e h.announces;
    well_formed = h.well_formed;
  },
)
AcquireSpec-of k t id msg m w v w' (err e) locks sent l h = record {
  counts = λ t' j. rw (← locks) (h.counts t' j);
  nothing_sent = h.nothing_sent ∙ sent;
  well_formed = h.well_formed;
}

module _ (env : Environment) where
  -- Acquire under the topic that the message names, if it names one. Where it succeeds, the message
  -- has an id and a topic, its own if it had them, and is otherwise as before; the key has one
  -- reference more under the topic, and one record more is sent, which announces the lock. Where it
  -- fails, the references are as before and nothing is sent. The counts stay well-formed either way.
  pub acquire-Outcome :
      IsRetrying env
      → (k : Coordinator) (t : String) (msg : Envelope) (w : World) → IsWellFormed w.locks
      → own_topic t msg ≡ t
      → AcquireSpec k t msg w (acquire env k t msg w).0 (acquire env k t msg w).1
  acquire-Outcome law k t msg w wf own =
      let m : Envelope = ensure_topic t (label_message env msg w) in
      rw acquire_lem (
        AcquireSpec-of k t (label_id env msg w) msg m w (label_world msg w) _ _ (ground arith)
          (ground arith) (label-Labelled env t msg w)
          (announce_lock-Outcome env k law t (label_id env msg w) m (label_world msg w)
            (ground (arith, wf))
            (lock_topic_of_header m t
              ((label-Labelled env t msg w).topic_header ∙ ap {B = Option String} some own))))

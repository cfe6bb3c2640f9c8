-- ===== src/Tracker/Redirect.antt =====
-- A message that enters the retry chain, and one that goes round in it.
use kafka_resilience.Base.{
  ◌+◌, ◌<◌, String, ◌≡◌, ◌≢◌, refl, ◌⊎◌, inl, inr, false, Option, some, List, ◌∷◌, ◌∙◌, arith,
  if◌then◌else◌, eq_refl, ℤ, pos, ◌+ℤ◌, ap, subst,
}
use kafka_resilience.Base.Decimal.{format_int}
use kafka_resilience.Base.Exec.{Exec, Result, ok, err, ◌>>=◌, catch}
use kafka_resilience.Errors.{Error}
use kafka_resilience.Config.{retry_topic}
use kafka_resilience.Locks.Counts.{same}
use kafka_resilience.Locks.WellFormed.{IsWellFormed}
use kafka_resilience.Message.Headers.{get}
use kafka_resilience.Message.Headers.Laws.{IsDistinct}
use kafka_resilience.Message.Envelope.{Envelope}
use kafka_resilience.Message.Values.{
  Time, Kind, get_header_value, header_id, header_topic, header_retry, header_retry_attempt,
  header_retry_max,
}
use kafka_resilience.Message.Values.RoundTrip.{get_text}
use kafka_resilience.World.{World, Sent, Environment}
use kafka_resilience.World.Retry.{IsRetrying}
use kafka_resilience.Coordinator.{Coordinator, redirect_topic}
use kafka_resilience.Coordinator.Announce.{count, Announces, Locked}
use kafka_resilience.Coordinator.Acquire.{AcquireSpec, Labelled, own_topic}
use kafka_resilience.Tracker.{Tracker, RetryData, retry_message, original_topic_of, is_retry_header}
use kafka_resilience.Tracker.Headers.{
  HasRetryHeaders, retry_headers-HasRetryHeaders, retry_headers_keep, id-ne,
}
use kafka_resilience.Tracker.Headers.Distinct.{retry_headers-IsDistinct}
use kafka_resilience.Tracker.Locking.{IsLocking}
use kafka_resilience.Tracker.Publish.{
  SameCounts, RollbackOutcome, PublishOutcome, publish_or_roll_back-Outcome,
}
use kafka_resilience.Tracker.Chain.{publish_or_roll_back, at_key, require_id, wrapping}

abbrev pub OneMore : String → String → World → World → Type 0
OneMore topic key w w' =
    (t j : String) → count w' t j ≡ (if same topic key t j then count w t j + 1 else count w t j)

-- The message of the retry topic that a redirect of `msg` sends.
pub record IsRetryOf (t : Tracker) (lock_id : String) (current : ℤ) (msg : Envelope) (s : Sent)
    : Type 0 where
  pub to_retry_topic : s.topic ≡ retry_topic t.cfg (original_topic_of msg)
  pub same_key : s.message.key ≡ msg.key
  pub same_payload : s.message.payload ≡ msg.payload
  pub attempt : get header_retry_attempt s.message.headers ≡ some (format_int (current +ℤ pos 1))
  pub max : get header_retry_max s.message.headers ≡ some (format_int t.cfg.max_retries)
  pub id : get header_id s.message.headers ≡ some lock_id
  pub marked : get header_retry s.message.headers ≡ some "true"
  pub topic : get header_topic s.message.headers ≡ some (original_topic_of msg)
  pub keeps :
      (j : String)
      → is_retry_header j ≡ false
      → header_topic ≢ j
      → get j s.message.headers ≡ get j msg.headers
  pub distinct : IsDistinct s.message.headers

abbrev pub sent_retry : Tracker → RetryData → Envelope → Time → Sent
sent_retry t d msg now = record {
  topic = (retry_message t.cfg d msg now).topic;
  message = retry_message t.cfg d msg now;
}

pub sent_retry-IsRetryOf :
    (t : Tracker) (d : RetryData) (current : ℤ) (msg₀ msg : Envelope) (now : Time)
    → d.next_attempt ≡ current +ℤ pos 1
    → d.original_topic ≡ original_topic_of msg₀
    → msg.key ≡ msg₀.key
    → msg.payload ≡ msg₀.payload
    → IsDistinct msg.headers
    → ((j : String)
        → is_retry_header j ≡ false
        → header_topic ≢ j
        → get j msg.headers ≡ get j msg₀.headers)
    → IsRetryOf t d.id current msg₀ (sent_retry t d msg now)
unfolding retry_message
sent_retry-IsRetryOf t d current msg₀ msg now att top key pay distinct kept =
    let h : HasRetryHeaders t.cfg d (retry_message t.cfg d msg now).headers =
      retry_headers-HasRetryHeaders t.cfg d msg.headers in
    record {
      to_retry_topic = ap (retry_topic t.cfg) top;
      same_key = key;
      same_payload = pay;
      attempt = h.attempt ∙ ap {B = Option String} (λ n. some (format_int n)) att;
      max = h.max;
      id = h.id;
      marked = h.retry;
      topic = h.topic ∙ ap {B = Option String} some top;
      keeps = λ j r ne. retry_headers_keep t.cfg d msg.headers j distinct r ne ∙ kept j r ne;
      distinct = retry_headers-IsDistinct t.cfg d msg.headers;
    }

-- A redirect that succeeds for a message that was not in the chain: the lock is announced, then the
-- message goes to the retry topic under the lock's id, and its key has one reference more.
pub record Entered (k : Coordinator) (t : Tracker) (current : ℤ) (msg : Envelope) (w w' : World)
    : Type 0 where
  pub lock : Sent
  pub retried : Sent
  pub sent : w'.sent ≡ retried ∷ lock ∷ w.sent
  pub lock_id : String
  pub announces : Announces k (original_topic_of msg) lock_id msg lock
  pub is_retry : IsRetryOf t lock_id current msg retried
  pub counts : OneMore (original_topic_of msg) msg.key w w'
  pub well_formed : IsWellFormed w'.locks

-- What a rollback leaves of the reference that the lock took, by the result of its tries.
abbrev pub AfterRollback : String → String → World → World → Result Error (Unit {0}) → Type 0
AfterRollback topic key w w' (ok u) = SameCounts w w'
AfterRollback topic key w w' (err e) = OneMore topic key w w'

-- A redirect whose lock is announced, and whose message could not be sent to the retry topic: the
-- release of the locked message is tried three times, and its result decides about the reference.
pub record Withdrawn (env : Environment) (k : Coordinator) (t : Tracker) (msg : Envelope)
    (w w' : World) : Type 0 where
  pub lock : Sent
  pub lock_id : String
  pub announces : Announces k (original_topic_of msg) lock_id msg lock
  pub locked_message : Envelope
  pub labelled : Labelled (original_topic_of msg) lock_id msg locked_message
  pub failed_at : World
  pub only_lock_sent : failed_at.sent ≡ lock ∷ w.sent
  pub locked : OneMore (original_topic_of msg) msg.key w failed_at
  pub rolled_back : w' ≡ (env.retry_do 3 (t.coordinator.release locked_message) failed_at).1
  pub outcome :
      AfterRollback
        (original_topic_of msg)
        msg.key
        w
        w'
        (env.retry_do 3 (t.coordinator.release locked_message) failed_at).0

abbrev pub EnterOutcome :
    Environment
    → Coordinator
    → Tracker
    → ℤ
    → Envelope
    → World
    → Result Error (Unit {0})
    → World
    → Type 0
EnterOutcome env k t current msg w (ok u) w' = Entered k t current msg w w'
EnterOutcome env k t current msg w (err e) w' =
    ((w'.sent ≡ w.sent) × SameCounts w w' ⊎ Withdrawn env k t msg w w') × IsWellFormed w'.locks

pub own_topic-original_topic_of :
    (msg : Envelope) → own_topic (original_topic_of msg) msg ≡ original_topic_of msg
unfolding original_topic_of
own_topic-original_topic_of msg = ground (arith, get_text msg.headers header_topic)

Announces-of :
    {k : Coordinator} {topic topic' id : String} {m msg : Envelope} {lock : Sent}
    → topic ≡ topic'
    → m.key ≡ msg.key
    → Announces k topic id m lock
    → Announces k topic' id msg lock
Announces-of {k} top key a = record {
  to_redirect_topic = a.to_redirect_topic ∙ ap (redirect_topic k) top;
  keyed_by_id = a.keyed_by_id;
  has_payload = a.has_payload;
  names_topic = a.names_topic ∙ ap {B = Option String} some top;
  names_key = a.names_key ∙ ap {B = Option String} some key;
  names_instance = a.names_instance;
}

-- What the lock and the publishing promise together.
module _ (env : Environment) (k : Coordinator) (t : Tracker) (current : ℤ) (d : RetryData)
    (msg₀ m : Envelope) (w v w' : World) (distinct : IsDistinct msg₀.headers)
    (att : d.next_attempt ≡ current +ℤ pos 1) (top : d.original_topic ≡ original_topic_of msg₀)
    (l : Labelled d.original_topic d.id msg₀ m) (h : Locked k d.original_topic d.id m w v) where
  one_more : OneMore (original_topic_of msg₀) msg₀.key w v
  one_more t' j = h.counts t' j ∙ rw (top, l.same_key) refl

  entered :
      (now : Time)
      → w'.sent ≡ sent_retry t d m now ∷ v.sent
      → w'.locks ≡ v.locks
      → Entered k t current msg₀ w w'
  entered now sent locks = record {
    lock = h.lock;
    retried = sent_retry t d m now;
    sent = sent ∙ ap (λ (s : List Sent). sent_retry t d m now ∷ s) h.announced;
    lock_id = d.id;
    announces = Announces-of top l.same_key h.announces;
    is_retry =
        sent_retry-IsRetryOf t d current msg₀ m now att top l.same_key l.same_payload
          (l.distinct distinct) (λ j r ne. l.other_headers j (id-ne j r) ne);
    counts = λ t' j. rw locks (one_more t' j);
    well_formed = rw locks h.well_formed;
  }

  after_rollback :
      (r : Result Error (Unit {0}))
      → RollbackOutcome d.original_topic m.key v r w'
      → AfterRollback (original_topic_of msg₀) msg₀.key w w' r × IsWellFormed w'.locks
  after_rollback (ok u) (freed, wf) =
      ((λ t' j. ground (arith, freed t' j, one_more t' j, top, l.same_key)), wf)
  after_rollback (err e) (kept, wf) = ((λ t' j. kept t' j ∙ one_more t' j), wf)

  after_lock :
      (r : Result Error (Unit {0}))
      → PublishOutcome env t d m v r w'
      → EnterOutcome env k t current msg₀ w r w'
  after_lock (ok u) (now, sent, locks) = entered now sent locks
  after_lock (err e) back =
      let (outcome, wf) = after_rollback _ back.outcome in
      (
        inr (record {
          lock = h.lock;
          lock_id = d.id;
          announces = Announces-of top l.same_key h.announces;
          locked_message = m;
          labelled = subst (λ topic. Labelled topic d.id msg₀ m) top l;
          failed_at = back.failed_at;
          only_lock_sent = back.nothing_sent ∙ h.announced;
          locked = λ t' j. rw back.same_locks (one_more t' j);
          rolled_back = back.ended;
          outcome = outcome;
        }),
        wf,
      )

held_lock :
    {k : Coordinator} {topic id : String} {m : Envelope} {w v : World}
    → Locked k topic id m w v
    → 0 < count v topic m.key
held_lock {topic} {m} h = ground (arith, h.counts topic m.key, eq_refl topic, eq_refl m.key)

abbrev pub data_of : ℤ → Option Error → Time → Time → String → String → RetryData
data_of current last_error original_time next_retry_time topic id = record {
  id = id;
  next_attempt = current +ℤ pos 1;
  next_retry_time = next_retry_time;
  original_time = original_time;
  last_error = last_error;
  original_topic = topic;
}

module _ (env : Environment) (retrying : IsRetrying env) (k : Coordinator) (t : Tracker)
    (law : IsLocking k t.coordinator) (current : ℤ) (last_error : Option Error)
    (original_time next_retry_time : Time) (msg : Envelope) (w : World) where
  -- What `lock_and_publish` does with the locked message.
  abbrev publish_locked : Envelope → Exec World Error (Unit {0})
  publish_locked m = do
    id ← require_id (original_topic_of msg) m.key (get_header_value Kind.text m.headers header_id)
    publish_or_roll_back env t
        (data_of current last_error original_time next_retry_time (original_topic_of msg) id) m

  pub publish_locked-Outcome :
      (p : Result Error Envelope × World)
      → IsDistinct msg.headers
      → AcquireSpec k (original_topic_of msg) msg w p.0 p.1
      → EnterOutcome env k t current msg w
          ((wrapping
                (at_key "failed to acquire lock" (original_topic_of msg) msg.key)
                (λ (s : World). p)
              >>= publish_locked)
            w).0
          ((wrapping
                (at_key "failed to acquire lock" (original_topic_of msg) msg.key)
                (λ (s : World). p)
              >>= publish_locked)
            w).1
  unfolding ◌>>=◌ catch
  publish_locked-Outcome (err e, v) distinct u = (inl (u.nothing_sent, u.counts), u.well_formed)
  publish_locked-Outcome (ok m, v) distinct (id, l, h) =
      let d : RetryData =
        data_of current last_error original_time next_retry_time (original_topic_of msg) id in
      rw (get_text, l.has_id)
        (after_lock env k t current d msg m w v _ distinct refl refl l h _ (
          publish_or_roll_back-Outcome env retrying k t law d m v h.well_formed l.has_id
            (l.topic_header ∙ ap {B = Option String} some (own_topic-original_topic_of msg))
            (held_lock h)))

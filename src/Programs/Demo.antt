-- ===== src/Programs/Demo.antt =====
-- DemoHandler of examples/sarama/demo/handler.go. Its mutex and its atomic counters make each access
-- one step; a call of Handle runs to its end before the next access. The counters do not leave int64.
pub mod Web
pub mod Accesses
pub mod Stats
pub mod Armed
pub mod Shown
use kafka_resilience.Base.{
  ℕ, ◌+◌, String, Bool, true, false, List, [], ◌∷◌, map, if◌then◌else◌, or_else,
}
use kafka_resilience.Base.GoMap.{GoMap, lookup, insert, remove}
use kafka_resilience.Base.Exec.{Exec, Result, ok, err}
use kafka_resilience.Errors.{Error, new}
use kafka_resilience.Message.Envelope.{Envelope}
use kafka_resilience.World.{World, Environment}
use kafka_resilience.Tracker.{Tracker}
use kafka_resilience.Tracker.Chain.{is_in_retry_chain}
use kafka_resilience.Programs.{text_of, is_retry}

pub record DemoHandler : Type 0 where
  pub fail_keys : GoMap Bool
  pub locked_keys : GoMap Bool
  pub processed_at : GoMap String
  pub processed : ℕ
  pub retried : ℕ
  pub succeeded : ℕ
  pub failed : ℕ

abbrev pub new_demo_handler : DemoHandler
new_demo_handler = record {
  fail_keys = [];
  locked_keys = [];
  processed_at = [];
  processed = 0;
  retried = 0;
  succeeded = 0;
  failed = 0;
}

unfoldable pub set_fail : String → DemoHandler → DemoHandler
set_fail key h = record h { fail_keys = insert key true h.fail_keys }

unfoldable pub clear_fail : String → DemoHandler → DemoHandler
clear_fail key h = record h { fail_keys = remove key h.fail_keys }

-- h.failKeys[key], which is false where the key is missing.
unfoldable pub is_armed : String → DemoHandler → Bool
is_armed key h = or_else (lookup key h.fail_keys) false

unfoldable pub check_and_clear_fail : String → DemoHandler → Bool × DemoHandler
unfolding is_armed
check_and_clear_fail key h =
    if is_armed key h then (true, record h { fail_keys = remove key h.fail_keys }) else (false, h)

-- The keys of a map, in the order of its entries; Go's order is any.
abbrev pub keys : GoMap Bool → List String
keys m = map (λ (entry : String × Bool). entry.0) m

unfoldable pub get_pending_fails : DemoHandler → List String
get_pending_fails h = keys h.fail_keys

unfoldable pub get_locked_keys : DemoHandler → List String
get_locked_keys h = keys h.locked_keys

unfoldable pub set_locked : String → Bool → DemoHandler → DemoHandler
set_locked key locked h =
    if locked
    then record h { locked_keys = insert key true h.locked_keys }
    else record h { locked_keys = remove key h.locked_keys }

unfoldable pub set_processed : String → String → DemoHandler → DemoHandler
set_processed key value h = record h { processed_at = insert key value h.processed_at }

-- The counters behind a simulated failure.
unfoldable pub count_failure : Bool → DemoHandler → DemoHandler
count_failure again h = record h {
  failed = h.failed + 1;
  retried = if again then h.retried + 1 else h.retried;
}

-- Behind the success of a message.
unfoldable pub record_success : String → String → DemoHandler → DemoHandler
unfolding set_locked set_processed
record_success key value h =
    set_processed key value (set_locked key false (record h { succeeded = h.succeeded + 1 }))

-- The end of Handle, with the outcome of checkAndClearFail.
unfoldable pub decide : Envelope → Bool × DemoHandler → Result Error (Unit {0}) × DemoHandler
unfolding count_failure record_success
decide msg (true, h) = (err (new "simulated failure"), count_failure (is_retry msg) h)
decide msg (false, h) = (ok tt, record_success msg.key (text_of msg) h)

module _ (env : Environment) (t : Tracker) where
  -- The beginning of Handle: the count, and the mark for /locks.
  unfoldable pub note : Envelope → World → DemoHandler → DemoHandler
  unfolding set_locked
  note msg w h =
      let counted : DemoHandler = record h { processed = h.processed + 1 } in
      if is_in_retry_chain env t msg w then set_locked msg.key true counted else counted

  -- Handle; it reads the locks and changes only its own state.
  unfoldable pub demo_handle : Envelope → World → Exec DemoHandler Error (Unit {0})
  unfolding note check_and_clear_fail decide
  demo_handle msg w h = decide msg (check_and_clear_fail msg.key (note msg w h))

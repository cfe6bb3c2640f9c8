-- ===== src/Tracker/Create.antt =====
-- NewErrorTracker of resilience/tracker.go with the options of resilience/options.go. The types of the
-- dependencies are parameters, and a nil interface is `none`.
pub mod Options
use kafka_resilience.Base.{String, Bool, true, false, Option, none, some, List, [], ◌∷◌, or_else}
use kafka_resilience.Base.Exec.{Result, ok, err}
use kafka_resilience.Config.{Config, Problem, validate}

-- An error of NewErrorTracker: a nil argument, or what Validate reports.
pub data Refusal : Type 0 where
  is_nil : String → Refusal
  invalid : List Problem → Refusal

-- The dependencies that the caller passes: the producer, the consumer factory and the admin.
pub record Clients (P F A : Type 0) : Type 0 where
  pub producer : P
  pub consumer_factory : F
  pub admin : A

module _ (L C B M : Type 0) where
  -- trackerOptions.
  pub record TrackerOptions : Type 0 where
    pub logger : Option L
    pub coordinator : Option C
    pub backoff : Option B
    pub meter : Option M

  -- The functional options, by their constructors WithLogger, WithCoordinator, WithBackoff, WithMeter.
  pub data TrackerOption : Type 0 where
    with_logger : Option L → TrackerOption
    with_coordinator : Option C → TrackerOption
    with_backoff : Option B → TrackerOption
    with_meter : Option M → TrackerOption

module _ {L C B M : Type 0} where
  abbrev pub no_options : TrackerOptions L C B M
  no_options = record { logger = none; coordinator = none; backoff = none; meter = none }

  -- What an option's function does.
  unfoldable pub set_option :
      TrackerOption L C B M → TrackerOptions L C B M → TrackerOptions L C B M
  set_option (with_logger l) o = record o { logger = l }
  set_option (with_coordinator c) o = record o { coordinator = c }
  set_option (with_backoff b) o = record o { backoff = b }
  set_option (with_meter m) o = record o { meter = m }

  -- `for _, opt := range opts { opt(&options) }`
  unfoldable pub set_options :
      List (TrackerOption L C B M) → TrackerOptions L C B M → TrackerOptions L C B M
  set_options [] o = o
  set_options (opt ∷ opts) o = set_options opts (set_option opt o)

-- The defaults: NewNoOpLogger, NewExponentialBackoff, the global meter, NewKafkaStateCoordinator.
pub record Defaults (P F A L C B M : Type 0) : Type 0 where
  pub logger : L
  pub backoff : B
  pub global_meter : M
  pub coordinator : Config → L → Clients P F A → Option M → C

-- The fields of ErrorTracker that are set from outside; its maps are empty.
pub record Created (P F A L C B M : Type 0) : Type 0 where
  pub cfg : Config
  pub clients : Clients P F A
  pub logger : L
  pub coordinator : C
  pub backoff : B
  pub meter : M

module _ {P F A L C B M : Type 0} (defaults : Defaults P F A L C B M) where
  -- resolveMeter.
  abbrev pub resolve_meter : Option M → M
  resolve_meter meter = or_else meter defaults.global_meter

  -- NewErrorTracker behind its tests.
  unfoldable pub build : Config → Clients P F A → TrackerOptions L C B M → Created P F A L C B M
  build cfg clients o =
      let logger : L = or_else o.logger defaults.logger in
      record {
        cfg = cfg;
        clients = clients;
        logger = logger;
        coordinator = or_else o.coordinator (defaults.coordinator cfg logger clients o.meter);
        backoff = or_else o.backoff defaults.backoff;
        meter = resolve_meter o.meter;
      }

  -- The tests for nil dependencies, in their order.
  abbrev pub require_clients : Option P → Option F → Option A → Result Refusal (Clients P F A)
  require_clients none factory admin = err (is_nil "producer cannot be nil")
  require_clients (some p) none admin = err (is_nil "consumerFactory cannot be nil")
  require_clients (some p) (some f) none = err (is_nil "admin cannot be nil")
  require_clients (some p) (some f) (some a) =
      ok (record { producer = p; consumer_factory = f; admin = a })

  -- Validate, with what it reports.
  abbrev pub require_valid : List Problem → Config → Result Refusal Config
  require_valid [] cfg = ok cfg
  require_valid (p ∷ ps) cfg = err (invalid (p ∷ ps))

  abbrev pub require_config : Option Config → Result Refusal Config
  require_config none = err (is_nil "config cannot be nil")
  require_config (some cfg) = require_valid (validate cfg) cfg

  -- The tests in their order, and the tracker.
  abbrev pub made :
      Result Refusal Config
      → Result Refusal (Clients P F A)
      → List (TrackerOption L C B M)
      → Result Refusal (Created P F A L C B M)
  made (err e) clients opts = err e
  made (ok cfg) (err e) opts = err e
  made (ok cfg) (ok clients) opts = ok (build cfg clients (set_options opts no_options))

  unfoldable pub new_error_tracker :
      Option Config
      → Option P
      → Option F
      → Option A
      → List (TrackerOption L C B M)
      → Result Refusal (Created P F A L C B M)
  new_error_tracker cfg producer factory admin opts =
      made (require_config cfg) (require_clients producer factory admin) opts

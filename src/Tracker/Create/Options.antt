-- ===== src/Tracker/Create/Options.antt =====
-- When NewErrorTracker makes a tracker, and with which dependencies.
use kafka_resilience.Base.{
  ◌≡◌, ◌≢◌, refl, sym, ap, ◌∙◌, ◌⊎◌, inl, inr, Option, none, some, List, [], ◌∷◌, or_else,
}
use kafka_resilience.Base.Exec.{Result, ok, err}
use kafka_resilience.Config.{Config, Problem, validate}
use kafka_resilience.Config.Valid.{IsValid, validate-IsValid}
use kafka_resilience.Tracker.Create.{
  Refusal, Clients, TrackerOptions, TrackerOption, with_logger, with_coordinator, with_backoff,
  with_meter, no_options, set_option, set_options, Defaults, Created, build, require_clients,
  require_valid, made, new_error_tracker,
}

-- What the last option of a kind sets, `none` where there is none of the kind.
unfoldable pub last {ℓ κ} : {O : Type ℓ} {X : Type κ} → (O → Option X) → List O → Option X
last kind [] = none
last kind (o ∷ os) = elim (last kind os) [ some x ↦ some x | none ↦ kind o ]

or_else-last {ℓ κ} :
    {O : Type ℓ} {X : Type κ} (kind : O → Option X) (o : O) (os : List O) (d : X)
    → or_else (last kind os) (or_else (kind o) d) ≡ or_else (last kind (o ∷ os)) d
unfolding last
or_else-last kind o os d =
    elim (last kind os)
      as (λ found.
        or_else found (or_else (kind o) d)
        ≡ or_else (elim found [ some x ↦ some x | none ↦ kind o ]) d) [
          | some x ↦ refl
          | none ↦ refl
        ]

module _ {L C B M : Type 0} where
  abbrev pub logger_of : TrackerOption L C B M → Option (Option L)
  logger_of (with_logger l) = some l
  logger_of (with_coordinator c) = none
  logger_of (with_backoff b) = none
  logger_of (with_meter m) = none

  abbrev pub coordinator_of : TrackerOption L C B M → Option (Option C)
  coordinator_of (with_logger l) = none
  coordinator_of (with_coordinator c) = some c
  coordinator_of (with_backoff b) = none
  coordinator_of (with_meter m) = none

  abbrev pub backoff_of : TrackerOption L C B M → Option (Option B)
  backoff_of (with_logger l) = none
  backoff_of (with_coordinator c) = none
  backoff_of (with_backoff b) = some b
  backoff_of (with_meter m) = none

  abbrev pub meter_of : TrackerOption L C B M → Option (Option M)
  meter_of (with_logger l) = none
  meter_of (with_coordinator c) = none
  meter_of (with_backoff b) = none
  meter_of (with_meter m) = some m

  -- Each field is what the last option of its kind sets.
  abbrev pub Sets :
      List (TrackerOption L C B M) → TrackerOptions L C B M → TrackerOptions L C B M → Type 0
  Sets opts o o' =
      (o'.logger ≡ or_else (last logger_of opts) o.logger)
      × (o'.coordinator ≡ or_else (last coordinator_of opts) o.coordinator)
      × (o'.backoff ≡ or_else (last backoff_of opts) o.backoff)
      × (o'.meter ≡ or_else (last meter_of opts) o.meter)

  set_option-Sets :
      (opt : TrackerOption L C B M) (o : TrackerOptions L C B M)
      → ((set_option opt o).logger ≡ or_else (logger_of opt) o.logger)
        × ((set_option opt o).coordinator ≡ or_else (coordinator_of opt) o.coordinator)
        × ((set_option opt o).backoff ≡ or_else (backoff_of opt) o.backoff)
        × ((set_option opt o).meter ≡ or_else (meter_of opt) o.meter)
  unfolding set_option
  set_option-Sets (with_logger l) o = (refl, refl, refl, refl)
  set_option-Sets (with_coordinator c) o = (refl, refl, refl, refl)
  set_option-Sets (with_backoff b) o = (refl, refl, refl, refl)
  set_option-Sets (with_meter m) o = (refl, refl, refl, refl)

  set_options-Sets :
      (opts : List (TrackerOption L C B M)) (o : TrackerOptions L C B M)
      → Sets opts o (set_options opts o)
  unfolding set_options last
  set_options-Sets [] o = (refl, refl, refl, refl)
  set_options-Sets (opt ∷ opts) o =
      let (l, c, b, m) = set_options-Sets opts (set_option opt o) in
      let (l', c', b', m') = set_option-Sets opt o in
      (
        l ∙ ap (or_else (last logger_of opts)) l' ∙ or_else-last logger_of opt opts o.logger,
        c
            ∙ ap (or_else (last coordinator_of opts)) c'
            ∙ or_else-last coordinator_of opt opts o.coordinator,
        b ∙ ap (or_else (last backoff_of opts)) b' ∙ or_else-last backoff_of opt opts o.backoff,
        m ∙ ap (or_else (last meter_of opts)) m' ∙ or_else-last meter_of opt opts o.meter,
      )

-- The argument of the last option of a kind, `none` where that is nil or there is no such option.
abbrev pub chosen {ℓ κ} : {O : Type ℓ} {X : Type κ} → (O → Option (Option X)) → List O → Option X
chosen kind opts = or_else (last kind opts) none

module _ {P F A L C B M : Type 0} (defaults : Defaults P F A L C B M) (cfg : Option Config)
    (producer : Option P) (factory : Option F) (admin : Option A)
    (opts : List (TrackerOption L C B M)) where
  abbrev pub Passed : Created P F A L C B M → Type 0
  Passed t =
      (cfg ≡ some t.cfg)
      × IsValid t.cfg
      × (producer ≡ some t.clients.producer)
      × (factory ≡ some t.clients.consumer_factory)
      × (admin ≡ some t.clients.admin)

  abbrev pub Chosen : Created P F A L C B M → Type 0
  Chosen t =
      (t.logger ≡ or_else (chosen logger_of opts) defaults.logger)
      × (t.coordinator
          ≡ or_else (chosen coordinator_of opts)
              (defaults.coordinator t.cfg t.logger t.clients (chosen meter_of opts)))
      × (t.backoff ≡ or_else (chosen backoff_of opts) defaults.backoff)
      × (t.meter ≡ or_else (chosen meter_of opts) defaults.global_meter)

  abbrev pub Refused : Type 0
  Refused =
      (cfg ≡ none)
      ⊎ (((c : Config) × (cfg ≡ some c) × ¬ IsValid c)
          ⊎ ((producer ≡ none) ⊎ ((factory ≡ none) ⊎ (admin ≡ none))))

  abbrev pub Outcome : Result Refusal (Created P F A L C B M) → Type 0
  Outcome (ok t) = Passed t × Chosen t
  Outcome (err e) = Refused

  build-Chosen :
      (c : Config) (clients : Clients P F A)
      → Chosen (build defaults c clients (set_options opts no_options))
  unfolding build
  build-Chosen c clients =
      let o : TrackerOptions L C B M = set_options opts no_options in
      let (l, k, b, m) = set_options-Sets opts no_options in
      let logger : L = or_else o.logger defaults.logger in
      (
        ap (λ x. or_else x defaults.logger) l,
        ap (λ x. or_else x (defaults.coordinator c logger clients o.meter)) k
            ∙ ap
                (λ x.
                  or_else (chosen coordinator_of opts) (defaults.coordinator c logger clients x))
                m,
        ap (λ x. or_else x defaults.backoff) b,
        ap (λ x. or_else x defaults.global_meter) m,
      )

impossible : (p : Problem) (ps : List Problem) → (p ∷ ps) ≢ []
impossible p ps h = cc

module _ {P F A L C B M : Type 0} (defaults : Defaults P F A L C B M) where
  equipped :
      (c : Config) (producer : Option P) (factory : Option F) (admin : Option A)
      (opts : List (TrackerOption L C B M)) (ps : List Problem)
      → validate c ≡ ps
      → Outcome defaults (some c) producer factory admin opts (
          made defaults
            (require_valid defaults ps c)
            (require_clients defaults producer factory admin)
            opts)
  unfolding build
  equipped c producer factory admin opts (p ∷ ps) h =
      inr (inl (c, refl, λ valid. impossible p ps (sym h ∙ (validate-IsValid c).1 valid)))
  equipped c none factory admin opts [] h = (inr (inr (inl refl)))
  equipped c (some p) none admin opts [] h = (inr (inr (inr (inl refl))))
  equipped c (some p) (some f) none opts [] h = (inr (inr (inr (inr refl))))
  equipped c (some p) (some f) (some a) opts [] h = (
    (refl, (validate-IsValid c).0 h, refl, refl, refl),
    build-Chosen defaults (some c) (some p) (some f) (some a) opts c
        (record { producer = p; consumer_factory = f; admin = a }),
  )

  -- NewErrorTracker makes a tracker only from a configuration that is there and valid and from a
  -- producer, a consumer factory and an admin that are there, and with exactly these; its logger,
  -- coordinator, backoff and meter are those of the last option of each kind, or the default where
  -- there is none or its argument is nil. It refuses only when one of the four (configuration,
  -- producer, consumer factory and admin) is missing or the configuration is not valid.
  pub new_error_tracker-Outcome :
      (cfg : Option Config) (producer : Option P) (factory : Option F) (admin : Option A)
      (opts : List (TrackerOption L C B M))
      → Outcome defaults cfg producer factory admin opts
          (new_error_tracker defaults cfg producer factory admin opts)
  unfolding new_error_tracker
  new_error_tracker-Outcome none producer factory admin opts = inl refl
  new_error_tracker-Outcome (some c) producer factory admin opts =
      equipped c producer factory admin opts (validate c) refl

-- ===== src/Coordinator/Startup/Restart.antt =====
-- The outcomes of Start, and a second Start.
use kafka_resilience.Base.{
  ◌+◌, String, ◌≡◌, refl, ap, ◌∙◌, true, false, Option, none, some, List, [], ◌∷◌, arith,
}
use kafka_resilience.Base.Exec
use kafka_resilience.Base.Exec.{Exec, Result, ok, err, pure, raise, ◌>>=◌, ◌>>◌}
use kafka_resilience.Errors.{Error}
use kafka_resilience.Config.{Config}
use kafka_resilience.Admin.{TopicMetadata, ensure_redirect_topic}
use kafka_resilience.Coordinator.{Coordinator}
use kafka_resilience.Coordinator.Startup.{
  Startup, StartEnvironment, on_cluster, created, refill, restore_from, restored,
  describe_redirect_topic, restore_state, start_redirect_consumer, start_up, start,
}

-- A call that leaves the fields of Start as they are.
abbrev IsQuiet : {A : Type 0} → Exec Startup Error A → Type 0
IsQuiet m =
    (s : Startup)
    → ((m s).1.started ≡ s.started) × ((m s).1.topic ≡ s.topic) × ((m s).1.running ≡ s.running)

module _ (env : StartEnvironment) (k : Coordinator) where
  restore_from-IsQuiet : (ms : List TopicMetadata) → IsQuiet (restore_from env k ms)
  unfolding restore_from ◌>>=◌ refill
  restore_from-IsQuiet [] s = (refl, refl, refl)
  restore_from-IsQuiet (m ∷ ms) s = ground arith

  restored-IsQuiet : (r : Result Error (List TopicMetadata)) → IsQuiet (restored env k r)
  restored-IsQuiet (ok ms) s = restore_from-IsQuiet ms s
  restored-IsQuiet (err e) s = (refl, refl, refl)

  module _ (cfg : Config) where
    restore_state-IsQuiet : (topic : String) → IsQuiet (restore_state env k cfg topic)
    unfolding restore_state describe_redirect_topic
    restore_state-IsQuiet topic s = restored-IsQuiet _ _

-- The number of running consumers goes up with a success alone.
abbrev pub IsLaunched : Startup → Result Error (Unit {0}) → Startup → Type 0
IsLaunched s (ok u) s' = s'.running ≡ s.running + 1
IsLaunched s (err e) s' = s'.running ≡ s.running

-- The fields of Start behind a call, if all the calls before it were quiet.
abbrev Stands : Startup → Result Error (Unit {0}) × Startup → Type 0
Stands s p = (p.1.started ≡ s.started) × (p.1.topic ≡ s.topic) × IsLaunched s p.0 p.1

Stands-along :
    (s s' : Startup) (p : Result Error (Unit {0}) × Startup)
    → (s'.started ≡ s.started) × (s'.topic ≡ s.topic) × (s'.running ≡ s.running)
    → Stands s' p
    → Stands s p
Stands-along s s' (ok u, v) q (a, b, c) = (a ∙ q.0, b ∙ q.1, c ∙ ap (λ x. x + 1) q.2)
Stands-along s s' (err e, v) q (a, b, c) = (a ∙ q.0, b ∙ q.1, c ∙ q.2)

continue-Stands :
    {A : Type 0} (n : A → Exec Startup Error (Unit {0})) (s : Startup)
    (p : Result Error A × Startup)
    → (p.1.started ≡ s.started) × (p.1.topic ≡ s.topic) × (p.1.running ≡ s.running)
    → ((a : A) (s : Startup) → Stands s (n a s))
    → Stands s (Exec.continue p.0 n p.1)
continue-Stands n s (err e, s') q stands = q
continue-Stands n s (ok a, s') q stands = Stands-along s s' (n a s') q (stands a s')

launched-Stands :
    (o : Option Error) (s : Startup)
    → Stands s ((created o >> λ s. (ok tt, record s { running = s.running + 1 })) s)
unfolding ◌>>=◌
launched-Stands none s = (refl, refl, refl)
launched-Stands (some e) s = (refl, refl, refl)

module _ (env : StartEnvironment) (k : Coordinator) (cfg : Config) where
  start_redirect_consumer-Stands : (s : Startup) → Stands s (start_redirect_consumer env k cfg s)
  unfolding start_redirect_consumer
  start_redirect_consumer-Stands s = launched-Stands _ s

  start_up-Stands : (topic : String) (s : Startup) → Stands s (start_up env k cfg topic s)
  unfolding start_up ◌>>=◌
  start_up-Stands topic s =
      continue-Stands {A = Unit {0}}
        (λ u. restore_state env k cfg topic >> start_redirect_consumer env k cfg) s
        (on_cluster (ensure_redirect_topic env.admin cfg topic) s) (refl, refl, refl)
        (λ u s'.
          continue-Stands {A = Unit {0}} (λ u. start_redirect_consumer env k cfg) s'
            (restore_state env k cfg topic s') (restore_state-IsQuiet env k cfg topic s')
            (λ u s''. start_redirect_consumer-Stands s''))

  -- What Start leaves: the coordinator counts as started, and another consumer runs exactly if there
  -- was no error.
  abbrev pub IsStarted : String → Startup → Result Error (Unit {0}) × Startup → Type 0
  IsStarted topic s p = (p.1.started ≡ true) × (p.1.topic ≡ topic) × IsLaunched s p.0 p.1

  first_start :
      (topic : String) (s : Startup)
      → s.started ≡ false
      → IsStarted topic s (start env k cfg topic s)
  unfolding start
  first_start topic s h =
      simp h (start_up-Stands topic (record s { started = true; topic = topic }))

again :
    (env : StartEnvironment) (k : Coordinator) (cfg : Config) (topic : String) (s : Startup)
    → s.started ≡ true
    → start env k cfg topic s ≡ (ok tt, s)
unfolding start
again env k cfg topic s h = rw h refl

-- The first Start of a coordinator marks it as started for the topic, with an error or without one,
-- and launches a redirect consumer exactly if it returns no error. Every later Start, for any topic
-- and under any outcomes of the calls that leave the program, returns nil and changes nothing: also
-- where the first one had failed.
pub start_once :
    (env env' : StartEnvironment) (k : Coordinator) (cfg : Config) (topic topic' : String)
    (s : Startup)
    → s.started ≡ false
    → IsStarted env k cfg topic s (start env k cfg topic s)
      × (start env' k cfg topic' (start env k cfg topic s).1 ≡ (ok tt, (start env k cfg topic s).1))
start_once env env' k cfg topic topic' s h =
    let launched = first_start env k cfg topic s h in
    (launched, again env' k cfg topic' (start env k cfg topic s).1 launched.0)

-- ===== src/World/Retry.antt =====
-- What the program relies on of retry.Do: it runs the function at most so many times, stops at the
-- first success and returns nil then, and returns an error otherwise. A context that ends may make
-- it give up at any time.
use kafka_resilience.Base.{ℕ, zero, suc, String, ◌≡◌, refl, ◌∷◌, arith}
use kafka_resilience.Base.Exec.{Exec, Result, ok, err}
use kafka_resilience.Errors.{Error, new}
use kafka_resilience.Message.Envelope.{Envelope}
use kafka_resilience.World.{World, Environment, produce}

pub data Tries (f : Exec World Error (Unit {0}))
    : ℕ → World → Result Error (Unit {0}) → World → Type 0 where
  success : {n : ℕ} {w w' : World} → f w ≡ (ok tt, w') → Tries f (suc n) w (ok tt) w'
  again :
      {n : ℕ} {w v w' : World} {r : Result Error (Unit {0})} (e : Error)
      → f w ≡ (err e, v)
      → Tries f n v r w'
      → Tries f (suc n) w r w'
  give_up : {n : ℕ} {w : World} (e : Error) → Tries f n w (err e) w

-- The rules hold for one try or more; with none, retry.Do tries for ever.
pub record IsRetrying (env : Environment) : Type 0 where
  pub tries :
      (n : ℕ) (f : Exec World Error (Unit {0})) (w : World)
      → Tries f (suc n) w (env.retry_do (suc n) f w).0 (env.retry_do (suc n) f w).1

-- The tries of one message: it is accepted once and then the result is nil, or never.
abbrev pub Produced : String → Envelope → World → Result Error (Unit {0}) → World → Type 0
Produced topic msg w (ok u) w' =
    (w'.sent ≡ record { topic = topic; message = msg } ∷ w.sent) × (w'.locks ≡ w.locks)
Produced topic msg w (err e) w' = (w'.sent ≡ w.sent) × (w'.locks ≡ w.locks)

module _ (env : Environment) where
  pub produce-Produced :
      (topic : String) (msg : Envelope) (w w' : World) (r : Result Error (Unit {0}))
      → produce env topic msg w ≡ (r, w')
      → Produced topic msg w r w'
  unfolding produce
  produce-Produced topic msg w w' (ok u) h = ground arith
  produce-Produced topic msg w w' (err e) h = ground arith

  Produced-again :
      (topic : String) (msg : Envelope) (w v w' : World) (e : Error) (r : Result Error (Unit {0}))
      → Produced topic msg w (err e) v
      → Produced topic msg v r w'
      → Produced topic msg w r w'
  Produced-again topic msg w v w' e (ok u) h k = ground arith
  Produced-again topic msg w v w' e (err d) h k = ground arith

  Tries-Produced :
      (topic : String) (msg : Envelope) {n : ℕ} {w w' : World} {r : Result Error (Unit {0})}
      → Tries (produce env topic msg) n w r w'
      → Produced topic msg w r w'
  Tries-Produced topic msg {w} {w'} (success h) = produce-Produced topic msg w w' (ok tt) h
  Tries-Produced topic msg {w} {w'} {r} (again {v} e h t) =
      Produced-again topic msg w v w' e r (produce-Produced topic msg w v (err e) h)
        (Tries-Produced topic msg t)
  Tries-Produced topic msg (give_up e) = (refl, refl)

  -- A message under retry.Do is accepted once if the result is nil, and never otherwise.
  pub retry-Produced :
      IsRetrying env
      → (n : ℕ) (topic : String) (msg : Envelope) (w : World)
      → Produced topic msg w
          (env.retry_do (suc n) (produce env topic msg) w).0
          (env.retry_do (suc n) (produce env topic msg) w).1
  retry-Produced law n topic msg w =
      Tries-Produced topic msg (law.tries n (produce env topic msg) w)

-- A loop that meets these rules, for examples.
abbrev retried :
    Result Error (Unit {0}) × World
    → (World → Result Error (Unit {0}) × World)
    → Result Error (Unit {0}) × World
retried (ok u, v) rest = (ok u, v)
retried (err e, v) rest = rest v

unfoldable pub retry_loop : ℕ → Exec World Error (Unit {0}) → Exec World Error (Unit {0})
retry_loop zero f w = (err (new "no attempt left"), w)
retry_loop (suc n) f w = retried (f w) (λ v. retry_loop n f v)

pub retry_loop-Tries :
    (n : ℕ) (f : Exec World Error (Unit {0})) (w : World)
    → Tries f n w (retry_loop n f w).0 (retry_loop n f w).1
unfolding retry_loop
retry_loop-Tries zero f w = give_up _
retry_loop-Tries (suc n) f w = split (f w) refl (λ v. retry_loop-Tries n f v)
  where
    split :
        (p : Result Error (Unit {0}) × World)
        → f w ≡ p
        → ((v : World) → Tries f n v (retry_loop n f v).0 (retry_loop n f v).1)
        → Tries f
            (suc n)
            w
            (retried p (λ v. retry_loop n f v)).0
            (retried p (λ v. retry_loop n f v)).1
    split (ok u, v) h rest = success h
    split (err e, v) h rest = again e h (rest v)

-- ===== src/Programs/Demo/Web/Produce.antt =====
-- The outcomes of POST /produce.
use kafka_resilience.Base.{◌≡◌, refl, ◌⊎◌, inl, inr, String, Bool-cases, true, false, ◌∷◌, ◌==◌, ℤ}
use kafka_resilience.Base.Exec.{Result, ok, err}
use kafka_resilience.Errors.{Error}
use kafka_resilience.Programs.{Sample, Outbox, Sending, sent_as, send_message}
use kafka_resilience.Programs.Demo.{DemoHandler, set_fail}
use kafka_resilience.Programs.Demo.Web.{
  Request, ProduceRequest, Answer, refused, answered, Produced, is_post, arm, produce_answer,
  produce_decoded, handle_produce,
}

module _ (sending : Sending) (topic : String) (h : DemoHandler) (o : Outbox) where
  abbrev pub sample_of : ProduceRequest → Sample
  sample_of req = record { topic = topic; key = req.key; value = req.value }

  -- The request passed the tests.
  abbrev pub Accepted : Request ProduceRequest → ProduceRequest → Type 0
  Accepted r req = (is_post r.method ≡ true) × (r.body ≡ ok req) × ((req.key == "") ≡ false)

  -- The key is armed if the request asks for it, and nothing else changes.
  abbrev pub ArmedBy : ProduceRequest → DemoHandler → Type 0
  ArmedBy req h' = ((req.fail ≡ true) × (h' ≡ set_fail req.key h)) ⊎ ((req.fail ≡ false) × (h' ≡ h))

  abbrev pub ProduceOutcome :
      Request ProduceRequest → Answer Produced → DemoHandler → Outbox → Type 0
  ProduceOutcome r (answered p) h' o' =
      (req : ProduceRequest) × Accepted r req
      × ArmedBy req h'
      × (o'.accepted ≡ sample_of req ∷ o.accepted)
      × (sending o.calls (sample_of req) ≡ ok (p.partition, p.offset))
      × (p.key ≡ req.key)
      × (p.will_fail ≡ req.fail)
  ProduceOutcome r (refused status text) h' o' =
      (o'.accepted ≡ o.accepted)
      × (((status ≡ 405) × (is_post r.method ≡ false) × (h' ≡ h))
          ⊎ (((status ≡ 400)
                × (h' ≡ h)
                × (((problem : String) × (r.body ≡ err problem))
                    ⊎ ((req : ProduceRequest) × (r.body ≡ ok req) × ((req.key == "") ≡ true))))
              ⊎ ((status ≡ 500)
                  × (req : ProduceRequest) × Accepted r req
                  × ArmedBy req h'
                  × (e : Error) × (sending o.calls (sample_of req) ≡ err e))))

  arm-ArmedBy : (req : ProduceRequest) → ArmedBy req (arm req h)
  arm-ArmedBy req = elim (Bool-cases req.fail) [
    | inl asked ↦ inl (asked, rw asked refl)
    | inr not_asked ↦ inr (not_asked, rw not_asked refl)
  ]

  sent-Outcome :
      (r : Request ProduceRequest) (req : ProduceRequest) (place : Result Error (ℤ × ℤ))
      → Accepted r req
      → sending o.calls (sample_of req) ≡ place
      → ProduceOutcome r
          (produce_answer req (sent_as (sample_of req) o place).0)
          (arm req h)
          (sent_as (sample_of req) o place).1
  sent-Outcome r req (ok (partition, offset)) a e = (req, a, arm-ArmedBy req, refl, e, refl, refl)
  sent-Outcome r req (err problem) a e =
      (refl, inr (inr (refl, req, a, arm-ArmedBy req, problem, e)))

  decoded-Outcome :
      (r : Request ProduceRequest) (body : Result String ProduceRequest)
      → is_post r.method ≡ true
      → r.body ≡ body
      → ProduceOutcome r
          (produce_decoded sending topic body h o).0
          (produce_decoded sending topic body h o).1
          (produce_decoded sending topic body h o).2
  unfolding produce_decoded send_message
  decoded-Outcome r (err text) posted e = (refl, inr (inl (refl, refl, inl (text, e))))
  decoded-Outcome r (ok req) posted e = elim (Bool-cases (req.key == "")) [
    | inl missing ↦ rw missing (refl, inr (inl (refl, refl, inr (req, e, missing))))
    | inr named ↦
        rw named (sent-Outcome r req (sending o.calls (sample_of req)) (posted, e, named) refl)
  ]

  -- POST /produce answers 200 only to a POST whose body is decoded and has a key, with exactly this
  -- message accepted and its place; every other answer is an error, 405 for another method, 400 for a
  -- body that is not decoded or has no key, and 500 for an error of the producer, and no message is
  -- accepted. The key is armed where the request was taken and asks for a failure, also under 500.
  pub handle_produce-Outcome :
      (r : Request ProduceRequest)
      → ProduceOutcome r
          (handle_produce sending topic r h o).0
          (handle_produce sending topic r h o).1
          (handle_produce sending topic r h o).2
  unfolding handle_produce
  handle_produce-Outcome r = elim (Bool-cases (is_post r.method)) [
    | inl posted ↦ rw posted (decoded-Outcome r r.body posted refl)
    | inr other ↦ rw other (refl, inl (refl, other, refl))
  ]

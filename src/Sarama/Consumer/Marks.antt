-- ===== src/Sarama/Consumer/Marks.antt =====
-- Which messages of a claim are marked.
use kafka_resilience.Base.{◌≡◌, refl, ap, Option, none, some, List, [], ◌∷◌, ◌++◌, map}
use kafka_resilience.Base.Exec.{Exec, Result, ok, err}
use kafka_resilience.Errors.{Error}
use kafka_resilience.Message.Envelope.{Envelope}
use kafka_resilience.Sarama.Consumer.{
  Event, message, closed, session_done, Claim, after_message, consume_claim,
}

module _ {S : Type 0} (handle : Envelope → Exec S Error (Unit {0})) where
  -- The handler succeeds on the messages, one after the other, and takes one state to the other.
  pub data Handles : S → List Envelope → S → Type 0 where
    none_left : {s : S} → Handles s [] s
    one_more :
        {msg : Envelope} {msgs : List Envelope} {s t u : S}
        → handle msg s ≡ (ok tt, t)
        → Handles t msgs u
        → Handles s (msg ∷ msgs) u

  -- The messages in front of those that were marked before, the last one foremost.
  unfoldable pub marked_after : List Envelope → List Envelope → List Envelope
  marked_after [] marked = marked
  marked_after (msg ∷ msgs) marked = marked_after msgs (msg ∷ marked)

  -- How the loop ends behind the messages that were handled.
  abbrev pub Ends : List Event → S → Option (Result Error (Unit {0})) → S → Type 0
  Ends [] s r s' = (r ≡ none) × (s' ≡ s)
  Ends (closed ∷ events) s r s' = (r ≡ some (ok tt)) × (s' ≡ s)
  Ends (session_done ∷ events) s r s' = (r ≡ some (ok tt)) × (s' ≡ s)
  Ends (message msg ∷ events) s r s' =
      (e : Error) × (handle msg s ≡ (err e, s')) × (r ≡ some (err e))

  abbrev pub Marks : List Event → Claim S → Option (Result Error (Unit {0})) × Claim S → Type 0
  Marks events c p =
      (msgs : List Envelope) × (rest : List Event) × (s : S) × (events ≡ map message msgs ++ rest)
      × Handles c.state msgs s
      × (p.1.marked ≡ marked_after msgs c.marked)
      × Ends rest s p.0 p.1.state

  pub consume_claim_err :
      (msg : Envelope) (events : List Event) (c : Claim S) (e : Error) (s : S)
      → handle msg c.state ≡ (err e, s)
      → consume_claim handle (message msg ∷ events) c ≡ (some (err e), record c { state = s })
  unfolding consume_claim
  consume_claim_err msg events c e s h = ap (after_message (consume_claim handle events) msg c) h

  pub consume_claim_ok :
      (msg : Envelope) (events : List Event) (c : Claim S) (s : S)
      → handle msg c.state ≡ (ok tt, s)
      → consume_claim handle (message msg ∷ events) c
        ≡ consume_claim handle events (record { state = s; marked = msg ∷ c.marked })
  unfolding consume_claim
  consume_claim_ok msg events c s h = ap (after_message (consume_claim handle events) msg c) h

  Marks-message :
      (msg : Envelope) (events : List Event) (c : Claim S) (q : Result Error (Unit {0}) × S)
      → handle msg c.state ≡ q
      → ((d : Claim S) → Marks events d (consume_claim handle events d))
      → Marks (message msg ∷ events) c (consume_claim handle (message msg ∷ events) c)
  unfolding marked_after
  Marks-message msg events c (err e, s) h more =
      rw (consume_claim_err msg events c e s h)
        ([], message msg ∷ events, c.state, refl, none_left, refl, (e, h, refl))
  Marks-message msg events c (ok u, s) h more =
      let (msgs, rest, t, split, handled, marks, ends) =
        more (record { state = s; marked = msg ∷ c.marked }) in
      rw (consume_claim_ok msg events c s h)
        (msg ∷ msgs, rest, t, ap (λ l. message msg ∷ l) split, one_more h handled, marks, ends)

  -- ConsumeClaim handles the messages in their order and marks exactly those that the handler took
  -- without an error, each one behind its handling. It stops at the first error of the handler and
  -- returns it, and that message is not marked; it returns nil when the channel is closed or the
  -- session ends.
  pub consume_claim-Marks :
      (events : List Event) (c : Claim S) → Marks events c (consume_claim handle events c)
  unfolding consume_claim marked_after
  consume_claim-Marks [] c = ([], [], c.state, refl, none_left, refl, (refl, refl))
  consume_claim-Marks (closed ∷ events) c =
      ([], closed ∷ events, c.state, refl, none_left, refl, (refl, refl))
  consume_claim-Marks (session_done ∷ events) c =
      ([], session_done ∷ events, c.state, refl, none_left, refl, (refl, refl))
  consume_claim-Marks (message msg ∷ events) c =
      Marks-message msg events c _ refl (λ d. consume_claim-Marks events d)

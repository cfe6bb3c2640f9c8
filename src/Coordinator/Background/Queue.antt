-- ===== src/Coordinator/Background/Queue.antt =====
-- Which errors of the redirect consumer reach the channel.
use kafka_resilience.Base.{
  append_snoc, ℕ, zero, suc, ◌+◌, ◌≤◌, ◌≡◌, refl, sym, ap, ◌∙◌, inl, inr, Bool, Bool-cases, false,
  Option, none, some, List, [], ◌∷◌, ◌++◌, if◌then◌else◌, ◌||◌, ltb, length, arith,
}
use kafka_resilience.Errors.{Error}
use kafka_resilience.Coordinator.Background.{Round, capacity, offer, offer_if, run_consumer}

unfoldable pub take : {A : Type 0} → ℕ → List A → List A
take zero xs = []
take (suc n) [] = []
take (suc n) (x ∷ xs) = x ∷ take n xs

abbrev pub to_list : Option Error → List Error
to_list none = []
to_list (some e) = e ∷ []

-- The errors of the rounds, up to the end of the loop.
unfoldable pub errors_of : List Round → List Error
errors_of [] = []
errors_of (round ∷ rounds) =
    let rest = errors_of rounds in
    if round.cancelled
    then []
    else (if round.interrupted then to_list round.error else to_list round.error ++ rest)

-- Some round ends the loop.
unfoldable pub is_ended : List Round → Bool
is_ended [] = false
is_ended (round ∷ rounds) = round.cancelled || (round.interrupted || is_ended rounds)

take-all : {A : Type 0} (n : ℕ) (xs : List A) → length xs ≤ n → take n (xs ++ []) ≡ xs
unfolding take length
take-all zero [] h = refl
take-all zero (x ∷ xs) h = absurd (omega (arith, h))
take-all (suc n) [] h = refl
take-all (suc n) (x ∷ xs) h = ap (λ l. x ∷ l) (take-all n xs (omega (arith, h)))

take-full : {A : Type 0} (n : ℕ) (xs ys : List A) → length xs ≡ n → take n (xs ++ ys) ≡ xs
unfolding take length
take-full zero [] ys h = refl
take-full zero (x ∷ xs) ys h = absurd (omega (arith, h))
take-full (suc n) [] ys h = absurd (omega (arith, h))
take-full (suc n) (x ∷ xs) ys h = ap (λ l. x ∷ l) (take-full n xs ys (omega (arith, h)))

length-snoc : {A : Type 0} (xs : List A) (x : A) → length (xs ++ (x ∷ [])) ≡ length xs + 1
unfolding length
length-snoc [] x = refl
length-snoc (y ∷ xs) x = ap (λ n. n + 1) (length-snoc xs x)

-- An error that is offered counts as one more in front of those that come.
offer-take :
    (e : Error) (queue es : List Error)
    → length queue ≤ capacity
    → (length (offer e queue) ≤ capacity)
      × (take capacity (offer e queue ++ es) ≡ take capacity (queue ++ (e ∷ es)))
unfolding offer
offer-take e queue es h = elim (Bool-cases (ltb (length queue) capacity)) [
  | inl room ↦
      rw room
        (ground (arith, room, length-snoc queue e), ap (take capacity) (append_snoc queue e es))
  | inr full ↦ rw full (
    h,
    take-full capacity queue es (ground (arith, h, full))
        ∙ sym (take-full capacity queue (e ∷ es) (ground (arith, h, full))),
  )
]

offer_if-take :
    (o : Option Error) (queue es : List Error)
    → length queue ≤ capacity
    → (length (offer_if o queue) ≤ capacity)
      × (take capacity (offer_if o queue ++ es) ≡ take capacity (queue ++ (to_list o ++ es)))
offer_if-take none queue es h = (h, refl)
offer_if-take (some e) queue es h = offer-take e queue es h

abbrev pub IsKept : List Round → List Error → Bool × List Error → Type 0
IsKept rounds queue p = (p.0 ≡ is_ended rounds) × (p.1 ≡ take capacity (queue ++ errors_of rounds))

offered-take :
    (o : Option Error) (queue : List Error)
    → length queue ≤ capacity
    → offer_if o queue ≡ take capacity (queue ++ to_list o)
offered-take none queue h = sym (take-all capacity queue h)
offered-take (some e) queue h =
    let (fits, same) = offer-take e queue [] h in
    sym (take-all capacity (offer e queue) fits) ∙ same

module _ (round : Round) (rounds : List Round) (queue : List Error) (fits : length queue ≤ capacity)
    (more : IsKept rounds
      (offer_if round.error queue)
      (run_consumer rounds (offer_if round.error queue))) where
  round-IsKept : IsKept (round ∷ rounds) queue (run_consumer (round ∷ rounds) queue)
  unfolding run_consumer errors_of is_ended
  round-IsKept = elim (Bool-cases round.cancelled) [
    | inl c ↦ simp c (refl, sym (take-all capacity queue fits))
    | inr c ↦ elim (Bool-cases round.interrupted) [
      | inl i ↦ simp (c, i) (refl, offered-take round.error queue fits)
      | inr i ↦
          simp (c, i) (more.0, more.1 ∙ (offer_if-take round.error queue (errors_of rounds) fits).1)
    ]
  ]

-- The loop from a channel with at most 16 errors that nobody reads. It ends exactly if the context is
-- found cancelled or done in some round; and the channel has the first 16 of the errors that it had
-- and that the rounds before the end returned, in their order.
pub run_consumer-IsKept :
    (rounds : List Round) (queue : List Error)
    → length queue ≤ capacity
    → IsKept rounds queue (run_consumer rounds queue)
unfolding run_consumer errors_of is_ended
run_consumer-IsKept [] queue fits = (refl, sym (take-all capacity queue fits))
run_consumer-IsKept (round ∷ rounds) queue fits = round-IsKept round rounds queue fits (
    run_consumer-IsKept rounds (offer_if round.error queue)
      (offer_if-take round.error queue [] fits).0)

-- ===== src/Coordinator/Synchronize/Wait.antt =====
-- When Synchronize returns nil.
use kafka_resilience.Base.{
  ◌≡◌, refl, ◌∙◌, subst, sym, ◌⊎◌, inl, inr, Bool-cases, true, none, some, ℤ, arith,
}
use mathlib.Core.Option.{some-injective}
use kafka_resilience.Base.Exec.{Result, ok, err}
use kafka_resilience.Errors.{Error}
use kafka_resilience.Coordinator.Offsets.{Offsets, AllDone, is_caught_up, is_caught_up-AllDone}
use kafka_resilience.Coordinator.Synchronize.{
  checking, woken, Sync, entered, check, wake, deliver, select_context, select_timer, select_done,
}

-- One step while Synchronize waits for the targets. The timer was set behind the deadline, so it
-- fires when the deadline has passed.
pub data Step (targets : Offsets) (s : Sync) : Sync → Type 0 where
  checks : s.place ≡ checking → Step targets s (check targets s)
  wakes : s.place ≡ woken → Step targets s (wake s)
  delivers : (partition offset : ℤ) → Step targets s (deliver partition offset s)
  cancels :
      (e : Error) → s.context_error ≡ none → Step targets s (record s { context_error = some e })
  expires : Step targets s (record s { expired = true })
  fires : s.expired ≡ true → Step targets s (record s { fired = true })
  selects_context :
      (e : Error) → s.result ≡ none → s.context_error ≡ some e → Step targets s (select_context e s)
  selects_timer : s.result ≡ none → s.fired ≡ true → Step targets s (select_timer s)
  selects_done : s.result ≡ none → s.done ≡ true → Step targets s (select_done s)

pub data Steps (targets : Offsets) (s : Sync) : Sync → Type 0 where
  stay : Steps targets s s
  onward : {t u : Sync} → Steps targets s t → Step targets t u → Steps targets s u

module _ (targets : Offsets) (i : Sync) where
  -- In some state between `i` and `s`, every target was reached.
  abbrev pub Reached : Sync → Type 0
  Reached s = (t : Sync) × Steps targets i t × Steps targets t s × AllDone t.consumed targets

  abbrev pub Justified : Sync → Result Error (Unit {0}) → Type 0
  Justified s (ok u) = Reached s ⊎ (s.expired ≡ true)
  Justified s (err e) = (s.context_error ≡ some e) ⊎ (s.expired ≡ true)

  record IsSound (s : Sync) : Type 0 where
    steps : Steps targets i s
    closed : s.done ≡ true → Reached s ⊎ (s.expired ≡ true)
    late : s.fired ≡ true → s.expired ≡ true
    justified : (r : Result Error (Unit {0})) → s.result ≡ some r → Justified s r

  onward-Reached : {s s' : Sync} → Step targets s s' → Reached s → Reached s'
  onward-Reached st (t, before, since, reached) = (t, before, onward since st, reached)

  -- What a step keeps when it does not touch the clock and the context.
  kept-Justified :
      {s s' : Sync} (r : Result Error (Unit {0}))
      → Step targets s s'
      → s'.expired ≡ s.expired
      → s'.context_error ≡ s.context_error
      → Justified s r
      → Justified s' r
  kept-Justified (ok u) st clock context (inl reached) = inl (onward-Reached st reached)
  kept-Justified (ok u) st clock context (inr late) = inr (clock ∙ late)
  kept-Justified (err e) st clock context (inl c) = inl (context ∙ c)
  kept-Justified (err e) st clock context (inr late) = inr (clock ∙ late)

  interrupted :
      {s : Sync} {e : Error} (r : Result Error (Unit {0}))
      → Step targets s (record s { context_error = some e })
      → s.context_error ≡ none
      → Justified s r
      → Justified (record s { context_error = some e }) r
  interrupted (ok u) st fresh (inl reached) = inl (onward-Reached st reached)
  interrupted (ok u) st fresh (inr late) = inr late
  interrupted (err e) st fresh (inl c) = cc
  interrupted (err e) st fresh (inr late) = inr late

  -- The result that was just set is the one that is read.
  is_result :
      (s : Sync) (r q : Result Error (Unit {0})) → some q ≡ some r → Justified s q → Justified s r
  is_result s r q h j = subst (Justified s) (some-injective q r h) j

  kept-closed :
      {s s' : Sync}
      → Step targets s s'
      → s'.expired ≡ s.expired
      → Reached s ⊎ (s.expired ≡ true)
      → Reached s' ⊎ (s'.expired ≡ true)
  kept-closed st clock (inl reached) = inl (onward-Reached st reached)
  kept-closed st clock (inr late) = inr (clock ∙ late)

  -- A step that leaves the clock, the context and the result alone.
  quiet-IsSound :
      {s s' : Sync}
      → Step targets s s'
      → s'.expired ≡ s.expired
      → s'.context_error ≡ s.context_error
      → s'.fired ≡ s.fired
      → s'.result ≡ s.result
      → (s'.done ≡ true → Reached s' ⊎ (s'.expired ≡ true))
      → IsSound s
      → IsSound s'
  quiet-IsSound st clock context timer result closed sound = record {
    steps = onward sound.steps st;
    closed = closed;
    late = λ h. clock ∙ sound.late (sym timer ∙ h);
    justified = λ r h. kept-Justified r st clock context (sound.justified r (sym result ∙ h));
  }

  check-IsSound : (s : Sync) → s.place ≡ checking → IsSound s → IsSound (check targets s)
  unfolding check
  check-IsSound s at sound =
      let st : Step targets s (check targets s) = checks at in
      let clock : (check targets s).expired ≡ s.expired = ground arith in
      quiet-IsSound st clock (ground arith) (ground arith) (ground arith)
        (λ h. elim (Bool-cases (is_caught_up s.consumed targets)) [
          | inl caught ↦
              inl
                (s, sound.steps, onward stay st, (is_caught_up-AllDone s.consumed targets).0 caught)
          | inr not_yet ↦ kept-closed st clock (sound.closed (ground (arith, h, not_yet)))
        ])
        sound

  wake-IsSound : (s : Sync) → s.place ≡ woken → IsSound s → IsSound (wake s)
  unfolding wake
  wake-IsSound s at sound =
      let st : Step targets s (wake s) = wakes at in
      let clock : (wake s).expired ≡ s.expired = ground arith in
      quiet-IsSound st clock (ground arith) (ground arith) (ground arith)
        (λ h. elim (Bool-cases s.expired) [
          | inl late ↦ inr (clock ∙ late)
          | inr early ↦ kept-closed st clock (sound.closed (ground (arith, h, early)))
        ])
        sound

  Step-IsSound : {s s' : Sync} → Step targets s s' → IsSound s → IsSound s'
  unfolding deliver select_context select_timer select_done
  Step-IsSound (checks at) sound = check-IsSound _ at sound
  Step-IsSound (wakes at) sound = wake-IsSound _ at sound
  Step-IsSound {s} (delivers p o) sound =
      let st : Step targets s (deliver p o s) = delivers p o in
      quiet-IsSound st refl refl refl refl (λ h. kept-closed st refl (sound.closed h)) sound
  Step-IsSound {s} (cancels e fresh) sound =
      let st : Step targets s (record s { context_error = some e }) = cancels e fresh in
      record {
        steps = onward sound.steps st;
        closed = λ h. kept-closed st refl (sound.closed h);
        late = sound.late;
        justified = λ r h. interrupted r st fresh (sound.justified r h);
      }
  Step-IsSound {s} expires sound =
      let st : Step targets s (record s { expired = true }) = expires in
      record {
        steps = onward sound.steps st;
        closed = λ h. inr refl;
        late = λ h. refl;
        justified = λ r h. elim r as (Justified (record s { expired = true })) [
          | ok u ↦ inr refl
          | err e ↦ inr refl
        ];
      }
  Step-IsSound {s} (fires h) sound =
      let st : Step targets s (record s { fired = true }) = fires h in
      record {
        steps = onward sound.steps st;
        closed = λ d. kept-closed st refl (sound.closed d);
        late = λ f. h;
        justified = λ r q. kept-Justified r st refl refl (sound.justified r q);
      }
  Step-IsSound {s} (selects_context e h c) sound =
      let st : Step targets s (select_context e s) = selects_context e h c in
      record {
        steps = onward sound.steps st;
        closed = λ d. kept-closed st refl (sound.closed d);
        late = sound.late;
        justified = λ r q. is_result _ r (err e) q (inl c);
      }
  Step-IsSound {s} (selects_timer h f) sound =
      let st : Step targets s (select_timer s) = selects_timer h f in
      record {
        steps = onward sound.steps st;
        closed = λ d. kept-closed st refl (sound.closed d);
        late = sound.late;
        justified = λ r q. is_result _ r _ q (inr (sound.late f));
      }
  Step-IsSound {s} (selects_done h d) sound =
      let st : Step targets s (select_done s) = selects_done h d in
      record {
        steps = onward sound.steps st;
        closed = λ d. kept-closed st refl (sound.closed d);
        late = sound.late;
        justified = λ r q. is_result _ r (ok tt) q (kept-closed st refl (sound.closed d));
      }

module _ (targets consumed : Offsets) where
  Steps-IsSound :
      {s : Sync} → Steps targets (entered consumed) s → IsSound targets (entered consumed) s
  Steps-IsSound stay = record {
    steps = stay;
    closed = λ h. cc;
    late = λ h. cc;
    justified = λ r h. cc;
  }
  Steps-IsSound (onward before st) =
      Step-IsSound targets (entered consumed) st (Steps-IsSound before)

  -- What a waiting Synchronize returns. If nil, every target was reached by the consumed offsets in
  -- some state since it began to wait, or the deadline has passed. If an error, it is the error of
  -- the context, or the deadline has passed.
  pub result-Justified :
      {s : Sync} (r : Result Error (Unit {0}))
      → Steps targets (entered consumed) s
      → s.result ≡ some r
      → Justified targets (entered consumed) s r
  result-Justified r steps h = (Steps-IsSound steps).justified r h

-- ===== src/Locks/Local.antt =====
-- The local coordinator against its specification: for each topic and key the number of messages
-- that were acquired and not yet released.
use kafka_resilience.Base.{
  ℕ, ◌+◌, ◌-◌, String, ◌≡◌, refl, ap, ◌∙◌, List, [], ◌∷◌, pos, ◌+ℤ◌, ◌-ℤ◌, or_else, if◌then◌else◌,
  arith, eq_iff, pos_part, ltb,
}
use mathlib.Core.List.{foldl}
use kafka_resilience.Base.GoMap.{lookup}
use kafka_resilience.Message.Envelope.{Envelope}
use kafka_resilience.Locks.{
  LockMap, get_ref_count, increment_ref, release_ref, acquire, release, is_locked, lock_topic,
}
use kafka_resilience.Locks.Counts.{same, get_ref_count-increment_ref, get_ref_count-release_ref}
use kafka_resilience.Locks.WellFormed.{
  IsWellFormed, IsPositive-of, empty-IsWellFormed, increment_ref-IsWellFormed,
  release_ref-IsWellFormed,
}

-- The number of references, 0 where there is no entry.
abbrev pub refs : LockMap → String → String → ℕ
refs lm t k = pos_part (or_else (get_ref_count lm t k) (pos 0))

pub refs-increment_ref :
    (lm : LockMap) (t k t' k' : String)
    → IsWellFormed lm
    → refs (increment_ref lm t k).0 t' k'
      ≡ (if same t k t' k' then refs lm t' k' + 1 else refs lm t' k')
unfolding ◌+ℤ◌
refs-increment_ref lm t k t' k' w =
    ground (
      arith,
      get_ref_count-increment_ref lm t k t' k',
      eq_iff t t',
      eq_iff k k',
      IsPositive-of w t k,
    )

pub refs-release_ref :
    (lm : LockMap) (t k t' k' : String)
    → refs (release_ref t k lm) t' k'
      ≡ (if same t k t' k' then refs lm t' k' - 1 else refs lm t' k')
unfolding ◌-ℤ◌
refs-release_ref lm t k t' k' =
    ground (arith, get_ref_count-release_ref lm t k t' k', eq_iff t t', eq_iff k k')

pub data Op : Type 0 where
  acquiring : String → Envelope → Op
  releasing : Envelope → Op

unfoldable pub step : LockMap → Op → LockMap
step lm (acquiring t msg) = acquire t msg lm
step lm (releasing msg) = release msg lm

-- The specification: one more for each message acquired under the place, one less, but not below
-- 0, for each released.
unfoldable pub outstanding : String → String → ℕ → List Op → ℕ
outstanding t k n [] = n
outstanding t k n (acquiring t' msg ∷ ops) =
    outstanding t k (if same t' msg.key t k then n + 1 else n) ops
outstanding t k n (releasing msg ∷ ops) =
    outstanding t k (if same (lock_topic msg) msg.key t k then n - 1 else n) ops

pub acquire-IsWellFormed :
    (t : String) (msg : Envelope) (lm : LockMap) → IsWellFormed lm → IsWellFormed (acquire t msg lm)
unfolding acquire
acquire-IsWellFormed t msg lm w = increment_ref-IsWellFormed lm t msg.key w

pub release-IsWellFormed :
    (msg : Envelope) (lm : LockMap) → IsWellFormed lm → IsWellFormed (release msg lm)
unfolding release
release-IsWellFormed msg lm w = release_ref-IsWellFormed lm (lock_topic msg) msg.key w

-- After any calls from an empty map: the map is well formed, the references to a key are the
-- outstanding acquisitions, whichever messages and topics the calls name.
run_from :
    (ops : List Op) (lm : LockMap) (t k : String)
    → IsWellFormed lm
    → IsWellFormed (foldl step lm ops)
      × (refs (foldl step lm ops) t k ≡ outstanding t k (refs lm t k) ops)
unfolding step outstanding acquire release
run_from [] lm t k w = (w, refl)
run_from (acquiring t' msg ∷ ops) lm t k w =
    let (w', e) = run_from ops (acquire t' msg lm) t k (acquire-IsWellFormed t' msg lm w) in
    (w', rw (← refs-increment_ref lm t' msg.key t k w) e)
run_from (releasing msg ∷ ops) lm t k w =
    let (w', e) = run_from ops (release msg lm) t k (release-IsWellFormed msg lm w) in
    (w', rw (← refs-release_ref lm (lock_topic msg) msg.key t k) e)

-- A key is locked exactly while it has references.
pub is_locked-refs :
    (msg : Envelope) (lm : LockMap) → is_locked msg lm ≡ ltb 0 (refs lm msg.topic msg.key)
unfolding is_locked
is_locked-refs msg lm = ground arith

-- From an empty map, after any sequence of Acquire and Release: the map is well formed, and IsLocked
-- says whether an acquisition of the message's topic and key is outstanding.
pub is_locked-outstanding :
    (ops : List Op) (msg : Envelope)
    → IsWellFormed (foldl step [] ops)
      × (is_locked msg (foldl step [] ops) ≡ ltb 0 (outstanding msg.topic msg.key 0 ops))
unfolding get_ref_count lookup
is_locked-outstanding ops msg =
    let (w, e) = run_from ops [] msg.topic msg.key empty-IsWellFormed in
    (w, is_locked-refs msg (foldl step [] ops) ∙ ap (ltb 0) e)

-- The counts after the local coordinator's Acquire.
pub refs-acquire :
    (t : String) (msg : Envelope) (lm : LockMap) (t' k' : String)
    → IsWellFormed lm
    → refs (acquire t msg lm) t' k'
      ≡ (if same t msg.key t' k' then refs lm t' k' + 1 else refs lm t' k')
unfolding acquire
refs-acquire t msg lm t' k' w = refs-increment_ref lm t msg.key t' k' w

-- The counts after its Release.
pub refs-release :
    (msg : Envelope) (lm : LockMap) (t' k' : String)
    → refs (release msg lm) t' k'
      ≡ (if same (lock_topic msg) msg.key t' k' then refs lm t' k' - 1 else refs lm t' k')
unfolding release
refs-release msg lm t' k' = refs-release_ref lm (lock_topic msg) msg.key t' k'

-- A Release behind an Acquire under the same topic takes every count back.
pub refs-acquire-release :
    (t : String) (msg : Envelope) (lm : LockMap) (t' k' : String)
    → IsWellFormed lm
    → lock_topic msg ≡ t
    → refs (release msg (acquire t msg lm)) t' k' ≡ refs lm t' k'
refs-acquire-release t msg lm t' k' w e =
    refs-release msg (acquire t msg lm) t' k' ∙ rw (e, refs-acquire t msg lm t' k' w) (ground arith)

-- ===== src/Locks/WellFormed.antt =====
-- The invariant of the lock map: a stored count is positive, and a stored topic holds a key.
use kafka_resilience.Base.{
  String, ◌≡◌, refl, false, Option, none, some, [], ℤ, pos, ◌+ℤ◌, ◌-ℤ◌, ◌≤ℤ◌, or_else, leb_ℤ,
  if◌then◌else◌, arith, ◌==◌, eq_iff, Option-cases, inl, inr, Bool-cases,
}
use kafka_resilience.Base.GoMap.{
  GoMap, lookup, insert, remove, is_empty, lookup-insert, lookup-remove, insert-ne-nil,
}
use kafka_resilience.Locks.{
  LockMap, get_ref_count, increment_ref, decrement_ref, remove_key, remove_topic, is_topic_empty,
  release_ref,
}
use kafka_resilience.Locks.Counts.{
  after_release, get_ref_count-increment_ref, get_ref_count-release_ref,
}

pub record IsWellFormed (lm : LockMap) : Type 0 where
  pub positive : (t k : String) (n : ℤ) → get_ref_count lm t k ≡ some n → pos 1 ≤ℤ n
  pub inhabited : (t : String) (ks : GoMap ℤ) → lookup t lm ≡ some ks → is_empty ks ≡ false

pub empty-IsWellFormed : IsWellFormed []
unfolding get_ref_count lookup
empty-IsWellFormed = record { positive = λ t k n h. cc; inhabited = λ t ks h. cc }

abbrev pub IsPositive : Option ℤ → Type 0
IsPositive none = Unit
IsPositive (some n) = pos 1 ≤ℤ n

increment-IsPositive : (o : Option ℤ) → IsPositive o → pos 1 ≤ℤ or_else o (pos 0) +ℤ pos 1
unfolding ◌+ℤ◌
increment-IsPositive none h = omega arith
increment-IsPositive (some n) h = ground arith

pub IsPositive-of :
    {lm : LockMap} → IsWellFormed lm → (t k : String) → IsPositive (get_ref_count lm t k)
IsPositive-of {lm} w t k = go (get_ref_count lm t k) refl
  where
    go : (o : Option ℤ) → get_ref_count lm t k ≡ o → IsPositive o
    go none e = tt
    go (some n) e = w.positive t k n e

pub increment_ref-IsWellFormed :
    (lm : LockMap) (t k : String) → IsWellFormed lm → IsWellFormed (increment_ref lm t k).0
increment_ref-IsWellFormed lm t k w = record {
  positive = λ t' k' n h. ground (
    arith,
    get_ref_count-increment_ref lm t k t' k',
    increment-IsPositive (get_ref_count lm t k) (IsPositive-of w t k),
    w.positive t' k' n,
  );
  inhabited = λ t' ks h.
      unfold increment_ref in
      ground (
        arith,
        lookup-insert t t'
            (insert k (or_else (lookup k (or_else (lookup t lm) [])) (pos 0) +ℤ pos 1)
              (or_else (lookup t lm) []))
            lm,
        insert-ne-nil k (or_else (lookup k (or_else (lookup t lm) [])) (pos 0) +ℤ pos 1)
            (or_else (lookup t lm) []),
        w.inhabited t' ks,
      );
}

-- What is not dropped is positive.
after_release-positive : (o : Option ℤ) (n : ℤ) → after_release o ≡ some n → pos 1 ≤ℤ n
unfolding ◌-ℤ◌
after_release-positive none n h = cc
after_release-positive (some m) n h = ground arith

-- Every topic but `t` holds a key.
abbrev InhabitedBut : String → LockMap → Type 0
InhabitedBut t lm =
    (t' : String) (ks : GoMap ℤ) → (t == t') ≡ false → lookup t' lm ≡ some ks → is_empty ks ≡ false

lookup-decrement_ref :
    (lm : LockMap) (t k t' : String)
    → (t == t') ≡ false
    → lookup t' (decrement_ref lm t k).0 ≡ lookup t' lm
unfolding decrement_ref
lookup-decrement_ref lm t k t' ne = elim (Option-cases (lookup t lm)) [
  | inl e ↦ ground arith
  | inr (ks, e) ↦ elim (Option-cases (lookup k ks)) [
    | inl f ↦ ground arith
    | inr (n, f) ↦ ground (arith, lookup-insert t t' (insert k (n -ℤ pos 1) ks) lm)
  ]
]

lookup-remove_key :
    (lm : LockMap) (t k t' : String)
    → (t == t') ≡ false
    → lookup t' (remove_key lm t k) ≡ lookup t' lm
unfolding remove_key
lookup-remove_key lm t k t' ne = elim (Option-cases (lookup t lm)) [
  | inl e ↦ ground arith
  | inr (ks, e) ↦ ground (arith, lookup-insert t t' (remove k ks) lm)
]

-- Dropping the topic if it is empty restores what the topic itself may lack.
inhabited_by_drop :
    (lm : LockMap) (t : String)
    → InhabitedBut t lm
    → (t' : String) (ks : GoMap ℤ)
    → lookup t' (if is_topic_empty lm t then remove_topic lm t else lm) ≡ some ks
    → is_empty ks ≡ false
unfolding is_topic_empty remove_topic
inhabited_by_drop lm t but t' ks h = elim (Bool-cases (t == t')) [
  | inl e ↦ ground (arith, eq_iff t t', lookup-remove t t' lm)
  | inr e ↦ ground (arith, but t' ks, lookup-remove t t' lm)
]

decrement_ref_missing :
    (lm : LockMap) (t k : String) → (decrement_ref lm t k).1 ≡ none → (decrement_ref lm t k).0 ≡ lm
unfolding decrement_ref
decrement_ref_missing lm t k h = ground arith

release_ref-inhabited :
    (lm : LockMap) (t k : String)
    → IsWellFormed lm
    → (t' : String) (ks : GoMap ℤ) → lookup t' (release_ref t k lm) ≡ some ks
    → is_empty ks ≡ false
unfolding release_ref
release_ref-inhabited lm t k w t' ks h = elim (Option-cases (decrement_ref lm t k).1) [
  | inl e ↦ ground (arith, decrement_ref_missing lm t k e, w.inhabited t' ks)
  | inr (n, e) ↦ elim (Bool-cases (leb_ℤ n (pos 0))) [
    | inl low ↦
        inhabited_by_drop (remove_key (decrement_ref lm t k).0 t k) t
          (λ j m ne f. w.inhabited j m (
            cc (
              lookup-remove_key (decrement_ref lm t k).0 t k j ne,
              lookup-decrement_ref lm t k j ne,
            )))
          t' ks (ground arith)
    | inr high ↦
        inhabited_by_drop (decrement_ref lm t k).0 t
          (λ j m ne f. w.inhabited j m (cc (lookup-decrement_ref lm t k j ne))) t' ks (ground arith)
  ]
]

pub release_ref-IsWellFormed :
    (lm : LockMap) (t k : String) → IsWellFormed lm → IsWellFormed (release_ref t k lm)
release_ref-IsWellFormed lm t k w = record {
  positive = λ t' k' n h. ground (
    arith,
    get_ref_count-release_ref lm t k t' k',
    after_release-positive (get_ref_count lm t k) n,
    w.positive t' k' n,
  );
  inhabited = release_ref-inhabited lm t k w;
}

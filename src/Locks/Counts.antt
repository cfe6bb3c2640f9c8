-- ===== src/Locks/Counts.antt =====
-- What each operation does to the reference count of every topic and key.
use kafka_resilience.Base.{
  String, ◌≡◌, Bool, true, Option, none, some, [], ℤ, pos, ◌+ℤ◌, ◌-ℤ◌, or_else, leb_ℤ,
  if◌then◌else◌, ◌&&◌, arith, ◌==◌, eq_iff, Option-cases, inl, inr, Bool-cases,
}
use kafka_resilience.Base.GoMap.{
  GoMap, lookup, insert, remove, lookup-insert, lookup-remove, lookup_of_is_empty,
}
use kafka_resilience.Locks.{
  LockMap, get_ref_count, increment_ref, decrement_ref, remove_key, remove_topic, is_topic_empty,
  release_ref,
}

-- Whether two places of the map are one.
abbrev pub same : String → String → String → String → Bool
same t k t' k' = (t == t') && (k == k')

get_ref_count-insert :
    (t t' k' : String) (ks : GoMap ℤ) (lm : LockMap)
    → get_ref_count (insert t ks lm) t' k'
      ≡ (if t == t' then lookup k' ks else get_ref_count lm t' k')
unfolding get_ref_count
get_ref_count-insert t t' k' ks lm = ground (arith, lookup-insert t t' ks lm)

get_ref_count-remove :
    (t t' k' : String) (lm : LockMap)
    → get_ref_count (remove t lm) t' k' ≡ (if t == t' then none else get_ref_count lm t' k')
unfolding get_ref_count
get_ref_count-remove t t' k' lm = ground (arith, lookup-remove t t' lm)

lookup-inner :
    (t k : String) (lm : LockMap) → lookup k (or_else (lookup t lm) []) ≡ get_ref_count lm t k
unfolding get_ref_count lookup
lookup-inner t k lm = elim (Option-cases (lookup t lm)) [
  | inl e ↦ ground arith
  | inr (ks, e) ↦ ground arith
]

get_ref_count_missing :
    (t k : String) (lm : LockMap) → lookup t lm ≡ none → get_ref_count lm t k ≡ none
unfolding get_ref_count
get_ref_count_missing t k lm e = ground arith

get_ref_count_found :
    (t k : String) (ks : GoMap ℤ) (lm : LockMap)
    → lookup t lm ≡ some ks
    → get_ref_count lm t k ≡ lookup k ks
unfolding get_ref_count
get_ref_count_found t k ks lm e = ground arith

pub get_ref_count-increment_ref :
    (lm : LockMap) (t k t' k' : String)
    → get_ref_count (increment_ref lm t k).0 t' k' ≡ (
        if same t k t' k'
        then some (or_else (get_ref_count lm t k) (pos 0) +ℤ pos 1)
        else get_ref_count lm t' k')
unfolding increment_ref
get_ref_count-increment_ref lm t k t' k' =
    simp (get_ref_count-insert, lookup-insert, lookup-inner) (ground (arith, eq_iff t t'))

-- The count where a key is found one lower, and the count as it was everywhere else.
pub get_ref_count-decrement_ref :
    (lm : LockMap) (t k t' k' : String)
    → get_ref_count (decrement_ref lm t k).0 t' k' ≡ (
        if same t k t' k'
        then elim (get_ref_count lm t k) [ none ↦ none | some n ↦ some (n -ℤ pos 1) ]
        else get_ref_count lm t' k')
unfolding decrement_ref
get_ref_count-decrement_ref lm t k t' k' = elim (Option-cases (lookup t lm)) [
  | inl e ↦ ground (
    arith,
    eq_iff t t',
    eq_iff k k',
    get_ref_count_missing t k lm e,
    get_ref_count_missing t k' lm e,
  )
  | inr (ks, e) ↦ elim (Option-cases (lookup k ks)) [
    | inl f ↦ ground (
      arith,
      eq_iff t t',
      eq_iff k k',
      get_ref_count_found t k ks lm e,
      get_ref_count_found t k' ks lm e,
    )
    | inr (n, f) ↦ ground (
      arith,
      eq_iff t t',
      eq_iff k k',
      get_ref_count_found t k ks lm e,
      get_ref_count_found t k' ks lm e,
      get_ref_count-insert t t' k' (insert k (n -ℤ pos 1) ks) lm,
      lookup-insert k k' (n -ℤ pos 1) ks,
    )
  ]
]

pub get_ref_count-remove_key :
    (lm : LockMap) (t k t' k' : String)
    → get_ref_count (remove_key lm t k) t' k'
      ≡ (if same t k t' k' then none else get_ref_count lm t' k')
unfolding remove_key
get_ref_count-remove_key lm t k t' k' = elim (Option-cases (lookup t lm)) [
  | inl e ↦ ground (
    arith,
    eq_iff t t',
    eq_iff k k',
    get_ref_count_missing t k lm e,
    get_ref_count_missing t k' lm e,
  )
  | inr (ks, e) ↦ ground (
    arith,
    eq_iff t t',
    eq_iff k k',
    get_ref_count_found t k ks lm e,
    get_ref_count_found t k' ks lm e,
    get_ref_count-insert t t' k' (remove k ks) lm,
    lookup-remove k k' ks,
  )
]

-- Removing a topic that holds no key changes no count.
pub get_ref_count-remove_topic :
    (lm : LockMap) (t t' k' : String)
    → is_topic_empty lm t ≡ true
    → get_ref_count (remove_topic lm t) t' k' ≡ get_ref_count lm t' k'
unfolding remove_topic is_topic_empty
get_ref_count-remove_topic lm t t' k' e = ground (
  arith,
  get_ref_count-remove t t' k' lm,
  lookup-inner t k' lm,
  lookup_of_is_empty k' (or_else (lookup t lm) []) e,
  eq_iff t t',
)

pub found-decrement_ref :
    (lm : LockMap) (t k : String)
    → (decrement_ref lm t k).1
      ≡ elim (get_ref_count lm t k) [ none ↦ none | some n ↦ some (n -ℤ pos 1) ]
unfolding decrement_ref get_ref_count
found-decrement_ref lm t k = ground arith

-- The count that a release leaves behind: one lower, and no count at all where that is not positive.
abbrev pub after_release : Option ℤ → Option ℤ
after_release none = none
after_release (some n) = if leb_ℤ (n -ℤ pos 1) (pos 0) then none else some (n -ℤ pos 1)

get_ref_count-drop_empty :
    (lm : LockMap) (t t' k' : String)
    → get_ref_count (if is_topic_empty lm t then remove_topic lm t else lm) t' k'
      ≡ get_ref_count lm t' k'
get_ref_count-drop_empty lm t t' k' = elim (Bool-cases (is_topic_empty lm t)) [
  | inl e ↦ rw e (get_ref_count-remove_topic lm t t' k' e)
  | inr e ↦ rw e
]

-- A release changes the count of its own topic and key alone.
pub get_ref_count-release_ref :
    (lm : LockMap) (t k t' k' : String)
    → get_ref_count (release_ref t k lm) t' k'
      ≡ (if same t k t' k' then after_release (get_ref_count lm t k) else get_ref_count lm t' k')
unfolding release_ref
get_ref_count-release_ref lm t k t' k' = elim (Option-cases (get_ref_count lm t k)) [
  | inl e ↦ ground (arith, found-decrement_ref lm t k, get_ref_count-decrement_ref lm t k t' k')
  | inr (n, e) ↦ elim (Bool-cases (leb_ℤ (n -ℤ pos 1) (pos 0))) [
    | inl low ↦ ground (
      arith,
      found-decrement_ref lm t k,
      get_ref_count-decrement_ref lm t k t' k',
      get_ref_count-remove_key (decrement_ref lm t k).0 t k t' k',
      get_ref_count-drop_empty (remove_key (decrement_ref lm t k).0 t k) t t' k',
    )
    | inr high ↦ ground (
      arith,
      found-decrement_ref lm t k,
      get_ref_count-decrement_ref lm t k t' k',
      get_ref_count-drop_empty (decrement_ref lm t k).0 t t' k',
    )
  ]
]

-- ===== src/Locks.antt =====
-- resilience/coordinator_local.go: the reference counts of locked keys, and the local coordinator,
-- whose methods are each atomic by its mutex. Start, Synchronize, Close and Errors of the local
-- coordinator do nothing and have no definition.
pub mod Counts
pub mod WellFormed
pub mod Local
use kafka_resilience.Base.{
  String, Bool, true, false, Option, none, some, List, [], ◌∷◌, ℤ, pos, ◌+ℤ◌, ◌-ℤ◌, or_else, leb_ℤ,
  ltb_ℤ, if◌then◌else◌, ◌&&◌,
}
use kafka_resilience.Base.GoMap.{GoMap, lookup, insert, remove, is_empty}
use kafka_resilience.Message.Envelope.{Envelope}
use kafka_resilience.Message.Values.{Kind, get_header_value, header_topic}

-- topic → key → number of references. `lm[topic] == nil` is a missing entry.
abbrev pub LockMap : Type 0
LockMap = GoMap (GoMap ℤ)

-- The count with its `exists`.
unfoldable pub get_ref_count : LockMap → String → String → Option ℤ
get_ref_count lm topic key = elim (lookup topic lm) [ none ↦ none | some ks ↦ lookup key ks ]

-- A missing topic gets an empty map; a missing key counts from 0.
unfoldable pub increment_ref : LockMap → String → String → LockMap × ℤ
increment_ref lm topic key =
    let ks : GoMap ℤ = or_else (lookup topic lm) [] in
    let count : ℤ = or_else (lookup key ks) (pos 0) +ℤ pos 1 in
    (insert topic (insert key count ks) lm, count)

-- The second part is the new count, `none` where the key does not exist.
unfoldable pub decrement_ref : LockMap → String → String → LockMap × Option ℤ
decrement_ref lm topic key = elim (lookup topic lm) [
  | none ↦ (lm, none)
  | some ks ↦ elim (lookup key ks) [
    | none ↦ (lm, none)
    | some n ↦ (insert topic (insert key (n -ℤ pos 1) ks) lm, some (n -ℤ pos 1))
  ]
]

unfoldable pub remove_key : LockMap → String → String → LockMap
remove_key lm topic key = elim (lookup topic lm) [
  | none ↦ lm
  | some ks ↦ insert topic (remove key ks) lm
]

unfoldable pub remove_topic : LockMap → String → LockMap
remove_topic lm topic = remove topic lm

unfoldable pub is_topic_empty : LockMap → String → Bool
is_topic_empty lm topic = is_empty (or_else (lookup topic lm) [])

-- localStateCoordinator.Acquire; it returns no error.
unfoldable pub acquire : String → Envelope → LockMap → LockMap
unfolding increment_ref
acquire original_topic msg lm = (increment_ref lm original_topic msg.key).0

-- The body of Release behind the reading of the topic.
unfoldable pub release_ref : String → String → LockMap → LockMap
release_ref topic key lm =
    let (lm₁, found) = decrement_ref lm topic key in
    elim found [
      | none ↦ lm₁
      | some new_count ↦
          let lm₂ : LockMap = if leb_ℤ new_count (pos 0) then remove_key lm₁ topic key else lm₁ in
          if is_topic_empty lm₂ topic then remove_topic lm₂ topic else lm₂
    ]

-- The topic under which a message's lock is counted.
unfoldable pub lock_topic : Envelope → String
lock_topic msg = or_else (get_header_value Kind.text msg.headers header_topic) msg.topic

-- localStateCoordinator.Release; it returns no error.
unfoldable pub release : Envelope → LockMap → LockMap
release msg lm = release_ref (lock_topic msg) msg.key lm

-- localStateCoordinator.IsLocked.
unfoldable pub is_locked : Envelope → LockMap → Bool
is_locked msg lm = elim (get_ref_count lm msg.topic msg.key) [
  | none ↦ false
  | some count ↦ ltb_ℤ (pos 0) count
]

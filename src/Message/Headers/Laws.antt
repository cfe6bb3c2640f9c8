-- ===== src/Message/Headers/Laws.antt =====
-- Reads after writes and deletes, and the order of headers.
use kafka_resilience.Base.{
  String, ◌≡◌, refl, true, false, some, none, List, [], ◌∷◌, ◌++◌, arith, ◌==◌, eq_iff,
  if◌then◌else◌, map, Bool-cases, inl, inr, ap, Bool,
}
use kafka_resilience.Message.Headers.{Header, get, set, delete, clone}

pub get-set :
    (k j v : String) (hs : List Header) → get j (set k v hs) ≡ (if k == j then some v else get j hs)
unfolding get set
get-set k j v [] = refl
get-set k j v (h ∷ hs) =
    ground (arith, eq_iff k j, eq_iff h.key k, eq_iff h.key j, get-set k j v hs)

-- Behind Delete of a key, Get finds nothing under it, however many headers had it, and every other key
-- reads as before.
pub get-delete :
    (k j : String) (hs : List Header) → get j (delete k hs) ≡ (if k == j then none else get j hs)
unfolding get delete
get-delete k j [] = ground arith
get-delete k j (h ∷ hs) =
    ground (arith, eq_iff k j, eq_iff h.key k, eq_iff h.key j, get-delete k j hs)

pub clone_lem : (hs : List Header) → clone hs ≡ hs
unfolding clone
clone_lem [] = refl
clone_lem (h ∷ hs) = ap (λ (t : List Header). h ∷ t) (clone_lem hs)

-- Whether a header with the key is there.
unfoldable pub has : String → List Header → Bool
has k [] = false
has k (h ∷ hs) = if h.key == k then true else has k hs

abbrev keys : List Header → List String
keys = map (λ h. h.key)

-- Set keeps the keys and their order where the key is there, and puts a new key at the end.
keys-set :
    (k v : String) (hs : List Header)
    → keys (set k v hs) ≡ (if has k hs then keys hs else keys hs ++ k ∷ [])
unfolding set has
keys-set k v [] = refl
keys-set k v (h ∷ hs) = ground (arith, keys-set k v hs)

-- No key occurs twice.
abbrev pub IsDistinct : List Header → Type 0
IsDistinct [] = Unit
IsDistinct (h ∷ hs) = (has h.key hs ≡ false) × IsDistinct hs

has-set :
    (k j v : String) (hs : List Header) → has j (set k v hs) ≡ (if k == j then true else has j hs)
unfolding set has
has-set k j v [] = refl
has-set k j v (h ∷ hs) =
    ground (arith, eq_iff k j, eq_iff h.key k, eq_iff h.key j, has-set k j v hs)

has-delete : (k j : String) (hs : List Header) → has j hs ≡ false → has j (delete k hs) ≡ false
unfolding delete has
has-delete k j [] n = refl
has-delete k j (h ∷ hs) n = ground (arith, has-delete k j hs)

pub set-IsDistinct : (k v : String) (hs : List Header) → IsDistinct hs → IsDistinct (set k v hs)
unfolding set has
set-IsDistinct k v [] d = (refl, tt)
set-IsDistinct k v (h ∷ hs) d = elim (Bool-cases (h.key == k)) [
  | inl e ↦ rw e d
  | inr e ↦ rw e (
    ground (arith, has-set k h.key v hs, eq_iff h.key k, eq_iff k h.key, d.0),
    set-IsDistinct k v hs d.1,
  )
]

pub delete-IsDistinct : (k : String) (hs : List Header) → IsDistinct hs → IsDistinct (delete k hs)
unfolding delete
delete-IsDistinct k [] d = tt
delete-IsDistinct k (h ∷ hs) d = elim (Bool-cases (h.key == k)) [
  | inl e ↦ rw e (delete-IsDistinct k hs d.1)
  | inr e ↦ rw e (has-delete k h.key hs d.0, delete-IsDistinct k hs d.1)
]

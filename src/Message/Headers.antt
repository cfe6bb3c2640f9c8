-- ===== src/Message/Headers.antt =====
-- headerList of resilience/message.go, one function for each method. A header value is the text of
-- its bytes; no code tells a nil value from an empty one. The mutex makes each method atomic.
pub mod Laws
pub mod Copy
use kafka_resilience.Base.{
  String, Bool, true, false, Option, none, some, List, [], ◌∷◌, ◌==◌, if◌then◌else◌,
}
use kafka_resilience.Base.GoMap.{GoMap, insert}

pub record Header : Type 0 where
  pub key : String
  pub value : String

-- The first header with the key wins.
unfoldable pub get : String → List Header → Option String
get k [] = none
get k (h ∷ hs) = if h.key == k then some h.value else get k hs

-- An existing header keeps its place; a new one goes to the end.
unfoldable pub set : String → String → List Header → List Header
set k v [] = record { key = k; value = v } ∷ []
set k v (h ∷ hs) = if h.key == k then record h { value = v } ∷ hs else h ∷ set k v hs

-- Every header with the key goes.
unfoldable pub delete : String → List Header → List Header
delete k [] = []
delete k (h ∷ hs) = let rest = delete k hs in if h.key == k then rest else h ∷ rest

collect : List Header → GoMap String → GoMap String
collect [] result = result
collect (h ∷ hs) result = collect hs (insert h.key h.value result)

-- `All`: each header is written to the map in turn.
unfoldable pub all : List Header → GoMap String
unfolding collect
all hs = collect hs []

-- `Clone`: a new header for each header. Texts are values here, so the copy shares nothing.
unfoldable pub clone : List Header → List Header
clone [] = []
clone (h ∷ hs) = record { key = h.key; value = h.value } ∷ clone hs

-- `Range`: the callback changes the caller's variables `s` and says whether to go on.
unfoldable pub range {ℓ} : {S : Type ℓ} → (String → String → S → Bool × S) → List Header → S → S
range fn [] s = s
range fn (h ∷ hs) s =
    let (more, s') = fn h.key h.value s in elim more [ true ↦ range fn hs s' | false ↦ s' ]

-- The callback with which `NewMessageEnvelope` and `NewFromMessage` fill a new list.
abbrev pub set_all : String → String → List Header → Bool × List Header
set_all key value hs = (true, set key value hs)

unfoldable pub copy_into : List Header → List Header → List Header
unfolding range
copy_into from to = range set_all from to

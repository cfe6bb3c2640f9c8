-- ===== src/Message/Headers/Copy.antt =====
-- Copying headers one `Set` at a time, and the view of a header list as a map.
use kafka_resilience.Base.{
  String, ◌≡◌, refl, false, Option, none, some, List, [], ◌∷◌, arith, ◌==◌, eq_iff, if◌then◌else◌,
  ◌∙◌,
}
use kafka_resilience.Base.GoMap.{GoMap, lookup, insert, lookup-insert, lookup-empty}
use kafka_resilience.Message.Headers.{Header, get, set, copy_into, all, collect}
use kafka_resilience.Message.Headers.Laws.{get-set, IsDistinct, has, set-IsDistinct}

-- The value of the last header with the key.
unfoldable pub get_last : String → List Header → Option String
get_last k [] = none
get_last k (h ∷ hs) = elim (get_last k hs) [
  | some v ↦ some v
  | none ↦ if h.key == k then some h.value else none
]

abbrev pub first_of : Option String → Option String → Option String
first_of (some v) b = some v
first_of none b = b

-- A copy made by `Set` holds the last value of each key.
pub get-copy_into :
    (j : String) (from to : List Header)
    → get j (copy_into from to) ≡ first_of (get_last j from) (get j to)
unfolding copy_into get_last
get-copy_into j [] to = refl
get-copy_into j (h ∷ hs) to =
    ground (arith, get-copy_into j hs (set h.key h.value to), get-set h.key j h.value to)

pub copy_into-IsDistinct : (from to : List Header) → IsDistinct to → IsDistinct (copy_into from to)
unfolding copy_into
copy_into-IsDistinct [] to d = d
copy_into-IsDistinct (h ∷ hs) to d =
    copy_into-IsDistinct hs (set h.key h.value to) (set-IsDistinct h.key h.value to d)

lookup-collect :
    (j : String) (hs : List Header) (m : GoMap String)
    → lookup j (collect hs m) ≡ first_of (get_last j hs) (lookup j m)
unfolding collect get_last
lookup-collect j [] m = refl
lookup-collect j (h ∷ hs) m =
    ground (arith, lookup-collect j hs (insert h.key h.value m), lookup-insert h.key j h.value m)

-- The map of `All` and a copy by `Set` show the same value for every key, whatever keys repeat.
pub lookup-all : (j : String) (hs : List Header) → lookup j (all hs) ≡ get j (copy_into hs [])
unfolding all get
lookup-all j hs = lookup-collect j hs [] ∙ cc (get-copy_into j hs [], lookup-empty {V = String} j)

get_last-has : (j : String) (hs : List Header) → has j hs ≡ false → get_last j hs ≡ none
unfolding get_last has
get_last-has j [] n = refl
get_last-has j (h ∷ hs) n = ground (arith, get_last-has j hs)

pub get_last-IsDistinct : (j : String) (hs : List Header) → IsDistinct hs → get_last j hs ≡ get j hs
unfolding get_last get
get_last-IsDistinct j [] d = refl
get_last-IsDistinct j (h ∷ hs) d =
    ground (arith, get_last-IsDistinct j hs d.1, get_last-has h.key hs d.0, eq_iff h.key j)

-- Where no key repeats, a copy reads as the original.
pub get-copy : (j : String) (hs : List Header) → IsDistinct hs → get j (copy_into hs []) ≡ get j hs
unfolding get
get-copy j hs d = ground (arith, get-copy_into j hs [], get_last-IsDistinct j hs d)

-- ===== src/Sarama.antt =====
-- adapter/sarama/message.go: the headers of a message of the client library. They are pointers, which
-- are values here: a list owns its headers.
pub mod Consumer
pub mod Producer
pub mod Create
pub mod Message
pub mod Admin
use kafka_resilience.Base.{
  ℕ, ◌+◌, ◌-◌, ◌≡◌, refl, String, Bool, true, false, Option, none, some, List, [], ◌∷◌, ◌==◌,
  if◌then◌else◌, eq_iff, arith,
}
use kafka_resilience.Base.GoMap.{GoMap, insert}
use kafka_resilience.Message.Headers.{Header}

unfoldable pub get : String → List Header → Option String
get key [] = none
get key (header ∷ rest) = if header.key == key then some header.value else get key rest

unfoldable pub set : String → String → List Header → List Header
set key value [] = record { key = key; value = value } ∷ []
set key value (header ∷ rest) =
    let behind : List Header = set key value rest in
    if header.key == key then record header { value = value } ∷ rest else header ∷ behind

-- The last one of a header and those behind it, and all but the last.
unfoldable pub last_of : Header → List Header → Header
last_of header [] = header
last_of header (next ∷ rest) = last_of next rest

unfoldable pub but_last : Header → List Header → List Header
but_last header [] = []
but_last header (next ∷ rest) = header ∷ but_last next rest

-- The place of a header that goes is taken by the last one behind it.
abbrev pub swap_last : List Header → List Header
swap_last [] = []
swap_last (next ∷ rest) = last_of next rest ∷ but_last next rest

unfoldable pub delete : String → List Header → List Header
delete key [] = []
delete key (header ∷ rest) =
    let behind : List Header = delete key rest in
    if header.key == key then swap_last rest else header ∷ behind

abbrev pub write_all : List Header → GoMap String → GoMap String
write_all [] result = result
write_all (header ∷ rest) result = write_all rest (insert header.key header.value result)

unfoldable pub all : List Header → GoMap String
all headers = write_all headers []

unfoldable pub clone : List Header → List Header
clone [] = []
clone (header ∷ rest) = record { key = header.key; value = header.value } ∷ clone rest

unfoldable pub range {ℓ} : {S : Type ℓ} → (String → String → S → Bool × S) → List Header → S → S
range fn [] s = s
range fn (header ∷ rest) s =
    let (more, s') = fn header.key header.value s in
    elim more [ true ↦ range fn rest s' | false ↦ s' ]

-- How many headers have the key.
unfoldable pub occurrences : String → List Header → ℕ
occurrences key [] = 0
occurrences key (header ∷ rest) = (if header.key == key then 1 else 0) + occurrences key rest

occurrences-swap_last :
    (key : String) (header : Header) (rest : List Header)
    → occurrences key (last_of header rest ∷ but_last header rest) ≡ occurrences key (header ∷ rest)
unfolding occurrences last_of but_last
occurrences-swap_last key header [] = refl
occurrences-swap_last key header (next ∷ rest) = omega (arith, occurrences-swap_last key next rest)

occurrences-swap :
    (key : String) (rest : List Header) → occurrences key (swap_last rest) ≡ occurrences key rest
occurrences-swap key [] = refl
occurrences-swap key (next ∷ rest) = occurrences-swap_last key next rest

-- Delete drops one header with the key, where there is one, and no header with another key, though it
-- may change their order.
pub occurrences-delete :
    (key other : String) (headers : List Header)
    → occurrences other (delete key headers)
      ≡ (if key == other then occurrences other headers - 1 else occurrences other headers)
unfolding occurrences delete
occurrences-delete key other [] = ground arith
occurrences-delete key other (header ∷ rest) = ground (
  arith,
  occurrences-delete key other rest,
  occurrences-swap other rest,
  eq_iff header.key key,
  eq_iff header.key other,
  eq_iff key other,
)

-- Get behind Set finds the new value under the key and every other value as before.
pub get_after_set :
    (key other value : String) (headers : List Header)
    → get other (set key value headers) ≡ (if key == other then some value else get other headers)
unfolding get set
get_after_set key other value [] = refl
get_after_set key other value (header ∷ rest) = ground (
  arith,
  get_after_set key other value rest,
  eq_iff key other,
  eq_iff header.key key,
  eq_iff header.key other,
)

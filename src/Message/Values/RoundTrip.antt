-- ===== src/Message/Values/RoundTrip.antt =====
-- What GetHeaderValue reads back of a value that SetHeader wrote.
use kafka_resilience.Base.{
  String, ◌≡◌, refl, ◌≢◌, some, List, arith, ◌==◌, eq_iff, eq_refl, if◌then◌else◌,
}
use kafka_resilience.Base.Decimal.{format_int, IsInt64}
use kafka_resilience.Base.Decimal.RoundTrip.{parse_int-format_int}
use kafka_resilience.Message.Headers.{Header, get, set}
use kafka_resilience.Message.Headers.Laws.{get-set}
use kafka_resilience.Message.Values.{
  unix, Kind, ValueOf, parse_value, format_value, get_header_value, set_header, put_header,
}

-- The values that a header can carry.
abbrev pub IsStorable : (t : Kind) → ValueOf t → Type 0
IsStorable Kind.text v = Unit
IsStorable Kind.int v = IsInt64 v
IsStorable Kind.time v = IsInt64 v.sec
IsStorable Kind.other v = ⊥

-- What is left of a value behind a header: a time loses its nanoseconds.
abbrev pub stored : (t : Kind) → ValueOf t → ValueOf t
stored Kind.time v = unix v.sec
stored Kind.text v = v
stored Kind.int v = v
stored Kind.other v = v

parse_value-format_value :
    (t : Kind) (v : ValueOf t)
    → IsStorable t v
    → (s : String) × (format_value t v ≡ some s) × (parse_value t s ≡ some (stored t v))
unfolding parse_value format_value
parse_value-format_value Kind.text v h = (v, refl, refl)
parse_value-format_value Kind.int v h = (format_int v, refl, parse_int-format_int v h)
parse_value-format_value Kind.time v h =
    (format_int v.sec, refl, rw (parse_int-format_int v.sec h, parse_value))
parse_value-format_value Kind.other v h = absurd h

-- A typed read after a write of text.
pub get_header_value-set :
    (t : Kind) (k j s : String) (hs : List Header)
    → get_header_value t (set k s hs) j
      ≡ (if k == j then parse_value t s else get_header_value t hs j)
unfolding get_header_value
get_header_value-set t k j s hs = ground (arith, get-set k j s hs)

-- A stored value is read back from its header and every other header reads as before.
pub get_header_value-set_header :
    (t : Kind) (hs : List Header) (key : String) (v : ValueOf t)
    → IsStorable t v
    → (hs' : List Header) × (set_header t hs key v ≡ some hs')
      × (get_header_value t hs' key ≡ some (stored t v))
      × ((j : String) → key ≢ j → get j hs' ≡ get j hs)
unfolding set_header
get_header_value-set_header t hs key v h =
    let (s, f, p) = parse_value-format_value t v h in
    (
      set key s hs,
      rw (f, set_header),
      ground (arith, get_header_value-set t key key s hs, eq_refl key, p),
      λ j n. ground (arith, get-set key j s hs, eq_iff key j),
    )

-- A text header is its value, and writing one is `Set`.
pub get_text : (hs : List Header) (j : String) → get_header_value Kind.text hs j ≡ get j hs
unfolding get_header_value parse_value
get_text hs j = ground arith

pub put_text : (hs : List Header) (j v : String) → put_header Kind.text hs j v ≡ set j v hs
unfolding put_header set_header format_value
put_text hs j v = refl

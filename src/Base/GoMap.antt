-- ===== src/Base/GoMap.antt =====
-- A Go map with string keys: entries in no order, of which the first one with a key counts. A write
-- drops the old entry. Clients use the laws of a read after a write and after a delete.
use Prim.Native.String.{String}
use mathlib.Core.Path.{◌≡◌, refl}
use mathlib.Core.Bool.{Bool, true, false}
use mathlib.Core.Option.{Option, none, some}
use mathlib.Core.List.{List, [], ◌∷◌}
use native.Mathlib.Omega.{arith}
use text.Mathlib.Text.{◌==◌}
use text.Mathlib.TextEquality.{eq_iff}
use kafka_resilience.Base.Tests.{if◌then◌else◌}

abbrev pub GoMap {ℓ} : Type ℓ → Type ℓ
GoMap V = List (String × V)

module _ {ℓ} {V : Type ℓ} where
  -- `m[k]` with its `ok`.
  unfoldable pub lookup : String → GoMap V → Option V
  lookup wanted [] = none
  lookup wanted (entry ∷ rest) = if entry.0 == wanted then some entry.1 else lookup wanted rest

  -- `delete(m, k)`.
  unfoldable pub remove : String → GoMap V → GoMap V
  remove dropped [] = []
  remove dropped (entry ∷ rest) =
      let kept : GoMap V = remove dropped rest in if entry.0 == dropped then kept else entry ∷ kept

  -- `m[k] = v`.
  unfoldable pub insert : String → V → GoMap V → GoMap V
  unfolding remove
  insert key value m = (key, value) ∷ remove key m

  -- `len(m) == 0`.
  abbrev pub is_empty : GoMap V → Bool
  is_empty [] = true
  is_empty (entry ∷ rest) = false

  pub lookup-remove :
      (dropped wanted : String) (m : GoMap V)
      → lookup wanted (remove dropped m) ≡ (if dropped == wanted then none else lookup wanted m)
  unfolding lookup remove
  lookup-remove dropped wanted [] = ground arith
  lookup-remove dropped wanted (entry ∷ rest) = ground (
    arith,
    lookup-remove dropped wanted rest,
    eq_iff dropped wanted,
    eq_iff entry.0 dropped,
    eq_iff entry.0 wanted,
  )

  pub lookup-insert :
      (key wanted : String) (value : V) (m : GoMap V)
      → lookup wanted (insert key value m) ≡ (if key == wanted then some value else lookup wanted m)
  unfolding lookup insert
  lookup-insert key wanted value m = ground (arith, lookup-remove key wanted m)

  pub insert-ne-nil :
      (key : String) (value : V) (m : GoMap V) → is_empty (insert key value m) ≡ false
  unfolding insert
  insert-ne-nil key value m = refl

  pub lookup-empty : (wanted : String) → lookup wanted [] ≡ none
  unfolding lookup
  lookup-empty wanted = refl

  pub lookup_of_is_empty :
      (wanted : String) (m : GoMap V) → is_empty m ≡ true → lookup wanted m ≡ none
  unfolding lookup
  lookup_of_is_empty wanted [] h = refl
  lookup_of_is_empty wanted (entry ∷ rest) h = cc

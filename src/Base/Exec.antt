-- ===== src/Base/Exec.antt =====
-- Calls that change a state and return an error, as Go's `(T, error)`. What was changed before an
-- error stays changed, so the new state comes back beside the error too.

use mathlib.Core.Bool.{Bool, true, false}

pub data Result {ℓ κ} (E : Type ℓ) (A : Type κ) : Type (ℓ ⊔ κ) where
  ok : A → Result E A
  err : E → Result E A

abbrev pub Exec : Type 0 → Type 0 → Type 0 → Type 0
Exec S E A = S → Result E A × S

module _ {S E A : Type 0} where
  abbrev pub pure : A → Exec S E A
  pure a s = (ok a, s)

  abbrev pub raise : E → Exec S E A
  raise e s = (err e, s)

  abbrev pub lift : Result E A → Exec S E A
  lift r s = (r, s)

module _ {S E A B : Type 0} where
  abbrev pub continue : Result E A → (A → Exec S E B) → Exec S E B
  continue (ok a) f s = f a s
  continue (err e) f s = (err e, s)

  infixl 10 ◌>>=◌ ◌>>◌
  unfoldable pub ◌>>=◌ : Exec S E A → (A → Exec S E B) → Exec S E B
  ◌>>=◌ m f s = let (r, s') = m s in continue r f s'

  abbrev pub ◌>>◌ : Exec S E A → Exec S E B → Exec S E B
  m >> n = m >>= λ _. n

-- `if err := m(); err != nil { handler(err) }`: the handler runs in the state that `m` left.
module _ {S E A : Type 0} where
  abbrev pub handle_error : Result E A → (E → Exec S E A) → Exec S E A
  handle_error (ok a) h s = (ok a, s)
  handle_error (err e) h s = h e s

  unfoldable pub catch : Exec S E A → (E → Exec S E A) → Exec S E A
  catch m h s = let (r, s') = m s in handle_error r h s'

  -- `_ = m()`: the outcome is dropped and the change of state stays.
  unfoldable pub ignore : Exec S E A → Exec S E (Unit {0})
  ignore m s = (ok tt, (m s).1)

abbrev pub is_err {ℓ κ} : {E : Type ℓ} {A : Type κ} → Result E A → Bool
is_err (ok a) = false
is_err (err e) = true

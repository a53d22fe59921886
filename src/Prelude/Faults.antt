-- ===== src/Prelude/Faults.antt =====
-- Go code that may panic (an index out of range, a division by zero, an explicit `panic`).
use mathlib.Core.Path.{◌≡◌}
use mathlib.Core.Option.{Option, none, some}
use mathlib.Core.List.{List}
use Prim.Native.Nat.{ℕ, ◌<◌}
use native.Mathlib.Omega.{arith}
use ww_webcrawler.Prelude.Lists.{length, get_elem?, get_or, set, get_elem?-eq-get_or}
use ww_webcrawler.Prelude.Tests.{ltb, if◌then◌else◌}

pub data Panics {ℓ} (A : Type ℓ) : Type ℓ where
  done : A → Panics A
  panicked : Panics A

infixl 5 ◌>>=◌
abbrev pub ◌>>=◌ {ℓ κ} : {A : Type ℓ} {B : Type κ} → Panics A → (A → Panics B) → Panics B
done a >>= f = f a
panicked >>= f = panicked

module _ {ℓ} {A : Type ℓ} where
  abbrev pub or_panic : Option A → Panics A
  or_panic none = panicked
  or_panic (some a) = done a

  -- `xs[i]`
  unfoldable pub load_at : List A → ℕ → Panics A
  load_at xs i = or_panic (get_elem? xs i)

  -- `xs[i] = v`
  unfoldable pub store_at : List A → ℕ → A → Panics (List A)
  store_at xs i v = if ltb i (length xs) then done (set xs i v) else panicked

  pub load_at_inside :
      (xs : List A) (i : ℕ) (d : A) → i < length xs → load_at xs i ≡ done (get_or xs i d)
  unfolding load_at
  load_at_inside xs i d h = rw (get_elem?-eq-get_or xs i d h)

  pub store_at_inside :
      (xs : List A) (i : ℕ) (v : A) → i < length xs → store_at xs i v ≡ done (set xs i v)
  unfolding store_at
  store_at_inside xs i v h = ground arith

-- Go's `(T, error)`, where the value beside an error is the zero value and nobody reads it.
pub data Result {ℓ κ} (E : Type ℓ) (A : Type κ) : Type (ℓ ⊔ κ) where
  ok : A → Result E A
  err : E → Result E A

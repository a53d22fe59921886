-- ===== src/Prelude/Equality.antt =====
-- What the program asks of a Go type parameter: its `==` and its zero value.
use Prim.Native.String.{String}
use mathlib.Core.Path.{◌≡◌, refl}
use mathlib.Core.Logic.{◌↔◌}
use mathlib.Core.Bool.{Bool, true}
use text.Mathlib.Text.{◌==◌ as str_eq}
use text.Mathlib.TextEquality.{eq_iff}

pub record Comparable {ℓ} (A : Type ℓ) : Type ℓ where
  pub beq : A → A → Bool
  pub beq_iff : (a b : A) → (beq a b ≡ true) ↔ (a ≡ b)
  pub nil_value : A

infix 50 ◌=?◌
abbrev pub ◌=?◌ {ℓ} : {A : Type ℓ} ⦃c : Comparable A⦄ → A → A → Bool
◌=?◌ ⦃c⦄ = c.beq

pub beq_self {ℓ} : {A : Type ℓ} ⦃c : Comparable A⦄ (a : A) → (a =? a) ≡ true
beq_self ⦃c⦄ a = (c.beq_iff a a).1 refl

instance abbrev pub string_comparable : Comparable String
string_comparable = record { beq = str_eq; beq_iff = eq_iff; nil_value = "" }

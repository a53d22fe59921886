-- ===== src/Prelude/Words.antt =====
-- Machine words as bit patterns, and the signed numbers that they stand for.
use Prim.Native.Nat.{ℕ, ◌+◌, ◌-◌, ◌%◌, ◌^◌, ◌<◌}
use mathlib.Core.Path.{◌≡◌}
use mathlib.Core.Bool.{Bool, false}
use native.Mathlib.Omega.{arith}
use ww_webcrawler.Prelude.Tests.{ltb, if◌then◌else◌}

-- `negsuc n` is -(n + 1).
pub data ℤ : Type 0 where
  pos : ℕ → ℤ
  negsuc : ℕ → ℤ

-- int32 addition of 1 and of -1
abbrev pub inc32 : ℕ → ℕ
inc32 w = (w + 1) % 2 ^ 32

abbrev pub dec32 : ℕ → ℕ
dec32 w = (w + 2 ^ 32 - 1) % 2 ^ 32

abbrev pub signed32 : ℕ → ℤ
signed32 w = if ltb w (2 ^ 31) then pos w else negsuc (2 ^ 32 - w - 1)

abbrev pub magnitude : ℤ → ℕ
magnitude (pos n) = n
magnitude (negsuc n) = n + 1

-- `n > 0`
abbrev pub is_positive : ℤ → Bool
is_positive (pos n) = ltb 0 n
is_positive (negsuc n) = false

pub signed32-small : (n : ℕ) → n < 2 ^ 31 → signed32 (n % 2 ^ 32) ≡ pos n
signed32-small n h = ground arith

pub inc32-mod : (n : ℕ) → inc32 (n % 2 ^ 32) ≡ (n + 1) % 2 ^ 32
inc32-mod n = omega arith

pub dec32-mod : (n : ℕ) → dec32 ((n + 1) % 2 ^ 32) ≡ n % 2 ^ 32
dec32-mod n = omega arith

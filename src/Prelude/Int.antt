-- ===== src/Prelude/Int.antt =====
-- `int`: file descriptors and JSON numbers, with the conversions to `uint8_t` and the equality test.
use Prim.Native.Nat.{ℕ, ◌-◌, ◌%◌}
use mathlib.Core.Path.{◌≡◌, refl}
use mathlib.Core.Logic.{◌↔◌}
use mathlib.Core.Bool.{Bool, true, false}
use native.Mathlib.Omega.{arith}
use gateway_esp.Prelude.Logic.{◌==◌}

-- `negsuc n` is -(n + 1).
pub data ℤ : Type 0 where
  pos : ℕ → ℤ
  negsuc : ℕ → ℤ

abbrev pub minus_one : ℤ
minus_one = negsuc 0

infix 50 ◌==ℤ◌
unfoldable pub ◌==ℤ◌ : ℤ → ℤ → Bool
◌==ℤ◌ (pos a) (pos b) = a == b
◌==ℤ◌ (pos a) (negsuc b) = false
◌==ℤ◌ (negsuc a) (pos b) = false
◌==ℤ◌ (negsuc a) (negsuc b) = a == b

pub ==ℤ_iff : (a b : ℤ) → ((a ==ℤ b) ≡ true) ↔ (a ≡ b)
unfolding ◌==ℤ◌
==ℤ_iff (pos a) (pos b) = ground arith
==ℤ_iff (pos a) (negsuc b) = ground arith
==ℤ_iff (negsuc a) (pos b) = ground arith
==ℤ_iff (negsuc a) (negsuc b) = ground arith

pub ==ℤ_refl : (a : ℤ) → (a ==ℤ a) ≡ true
==ℤ_refl a = (==ℤ_iff a a).1 refl

-- The conversion of an `int` to `uint8_t`: the value modulo 256.
abbrev pub u8_of_int : ℤ → ℕ
u8_of_int (pos n) = n % 256
u8_of_int (negsuc n) = 255 - n % 256

-- ===== src/Prelude/Int.antt =====
-- Go's signed integers as far as the program tests them. `negsuc n` is -(n + 1).
use Prim.Native.Nat.{ℕ, zero, suc, ◌+◌, ◌-◌, ◌*◌, ◌/◌, ◌%◌, ◌^◌, ◌<◌}
use mathlib.Core.Path.{◌≡◌}
use native.Mathlib.Omega.{arith}
use voice_flux_engine.Prelude.Tests.{ltb, if◌then◌else◌}

pub data ℤ : Type 0 where
  pos : ℕ → ℤ
  negsuc : ℕ → ℤ

abbrev pub pos_part : ℤ → ℕ
pos_part (pos n) = n
pos_part (negsuc n) = 0

abbrev pub neg_part : ℤ → ℕ
neg_part (pos n) = 0
neg_part (negsuc n) = suc n

-- a - b of two natural numbers
abbrev pub sub_nat : ℕ → ℕ → ℤ
sub_nat a b = if ltb a b then negsuc (b - a - 1) else pos (a - b)

infixl 60 ◌+ℤ◌ ◌-ℤ◌
abbrev pub ◌+ℤ◌ : ℤ → ℤ → ℤ
x +ℤ y = sub_nat (pos_part x + pos_part y) (neg_part x + neg_part y)

abbrev pub ◌-ℤ◌ : ℤ → ℤ → ℤ
x -ℤ y = sub_nat (pos_part x + neg_part y) (neg_part x + pos_part y)

-- minus a natural number
abbrev pub neg : ℕ → ℤ
neg zero = pos 0
neg (suc n) = negsuc n

infixl 70 ◌*ℤ◌
abbrev pub ◌*ℤ◌ : ℤ → ℤ → ℤ
pos a *ℤ pos b = pos (a * b)
pos a *ℤ negsuc b = neg (a * (b + 1))
negsuc a *ℤ pos b = neg ((a + 1) * b)
negsuc a *ℤ negsuc b = pos ((a + 1) * (b + 1))

-- division by a positive number, which rounds towards 0
abbrev pub quot : ℤ → ℕ → ℤ
quot (pos a) n = pos (a / n)
quot (negsuc a) n = neg ((a + 1) / n)

-- the int64 of a result
abbrev pub i64 : ℤ → ℤ
i64 (pos n) = let m = n % 2 ^ 64 in if ltb m (2 ^ 63) then pos m else negsuc (2 ^ 64 - m - 1)
i64 (negsuc n) = let m = n % 2 ^ 64 in if ltb m (2 ^ 63) then negsuc m else pos (2 ^ 64 - m - 1)

pub i64_small : (n : ℕ) → n < 2 ^ 63 → i64 (pos n) ≡ pos n
i64_small n h = ground arith

pub sub_nat-add : (a b c d : ℕ) → sub_nat a b +ℤ sub_nat c d ≡ sub_nat (a + c) (b + d)
sub_nat-add a b c d = ground arith

pub sub_nat-sub : (a b c d : ℕ) → sub_nat a b -ℤ sub_nat c d ≡ sub_nat (a + d) (b + c)
sub_nat-sub a b c d = ground arith

pub sub_nat-eq : (a b c d : ℕ) → a + d ≡ c + b → sub_nat a b ≡ sub_nat c d
sub_nat-eq a b c d h = ground arith

-- ===== src/Prelude/Bits.antt =====
-- `bit_and` with a mask of ones, and the test `n & (n - 1)` for powers of two.
use Prim.Native.Nat.{
  ℕ, zero, suc, ◌+◌, ◌-◌, ◌*◌, ◌/◌, ◌%◌, ◌^◌, ◌≤◌, ◌<◌, min, bit_and, digits, bit_and-bitwise,
}
use mathlib.Core.Path.{◌≡◌, refl, sym, ◌∙◌}
use native.Mathlib.Nat.{pow-suc}
use native.Mathlib.Decide.{dec_lt}
use native.Mathlib.Omega.{arith}

-- `n` digits of the conjunction
abbrev conj : ℕ → ℕ → ℕ → ℕ
conj = digits (λ b. zero) min

pub pow_pos : (k : ℕ) → 0 < 2 ^ k
pow_pos zero = omega arith
pow_pos (suc k) = omega (arith, pow-suc 2 k, pow_pos k)

conj-zero : (n a : ℕ) → conj n a 0 ≡ 0
conj-zero zero a = refl
conj-zero (suc n) zero = refl
conj-zero (suc n) (suc a) = omega (arith, conj-zero n (suc a / 2))

mod-double : (a m : ℕ) → 0 < m → (a / 2 % m) * 2 + a % 2 ≡ a % (m * 2)
mod-double a m h = grind arith

conj_mask : (n k a : ℕ) → a ≤ n → conj n a (2 ^ k - 1) ≡ a % 2 ^ k
conj_mask n zero a h = conj-zero n a ∙ omega arith
conj_mask zero (suc k) zero h = omega (arith, pow_pos (suc k))
conj_mask zero (suc k) (suc a) h = absurd (omega arith)
conj_mask (suc n) (suc k) zero h = omega (arith, pow_pos (suc k))
conj_mask (suc n) (suc k) (suc a) h =
    rw (halved, odd, pow-suc, conj_mask n k (suc a / 2) (omega arith))
      (omega (arith, mod-double (suc a) (2 ^ k) (pow_pos k)))
  where
    halved : (2 ^ suc k - 1) / 2 ≡ 2 ^ k - 1
    halved = omega (arith, pow-suc 2 k)

    odd : (2 ^ suc k - 1) % 2 ≡ 1
    odd = omega (arith, pow-suc 2 k, pow_pos k)

conj_self : (n a : ℕ) → a ≤ n → conj n a a ≡ a
conj_self zero zero h = refl
conj_self zero (suc a) h = absurd (omega arith)
conj_self (suc n) zero h = refl
conj_self (suc n) (suc a) h = omega (arith, conj_self n (suc a / 2) (omega arith))

conj_pred : (n a : ℕ) → a ≤ n → 0 < a → conj n a (a - 1) ≡ 0 → (k : ℕ) × (a ≡ 2 ^ k)
conj_pred zero a h p e = absurd (omega arith)
conj_pred (suc n) zero h p e = absurd (omega arith)
conj_pred (suc n) (suc a) h p e = elim (dec_lt 0 (suc a % 2)) [
  | yes odd ↦
      let half : (suc a - 1) / 2 ≡ suc a / 2 = omega arith in
      let rest : conj n (suc a / 2) ((suc a - 1) / 2) ≡ 0 = omega (arith, e) in
      let one : conj n (suc a / 2) (suc a / 2) ≡ 0 = rw half at rest in
      (0, omega (arith, conj_self n (suc a / 2) (omega arith)))
  | no even ↦
      let half : (suc a - 1) / 2 ≡ suc a / 2 - 1 = omega arith in
      let low : conj n (suc a / 2) (suc a / 2 - 1) ≡ 0 = rw (← half) (omega (arith, e)) in
      let (k, q) = conj_pred n (suc a / 2) (omega arith) (omega arith) low in
      (suc k, omega (arith, pow-suc 2 k))
]

-- Masking with `2^k - 1` is the remainder by `2^k`.
pub bit_and_mask : (k a : ℕ) → bit_and a (2 ^ k - 1) ≡ a % 2 ^ k
bit_and_mask k a = bit_and-bitwise a (2 ^ k - 1) ∙ conj_mask a k a (omega arith)

pub power_of_two : (n : ℕ) → 0 < n → bit_and n (n - 1) ≡ 0 → (k : ℕ) × (n ≡ 2 ^ k)
power_of_two n p e = conj_pred n n (omega arith) p (sym (bit_and-bitwise n (n - 1)) ∙ e)

-- ===== src/Prelude/Xor.antt =====
-- Exclusive or as arithmetic on binary digits, and the order of the arguments of `|`.
use Prim.Native.Nat.{
  ℕ, zero, suc, ◌+◌, ◌*◌, ◌/◌, ◌%◌, ◌^◌, ◌≤◌, ◌<◌, bit_or, bit_xor, differ, digits, bit_xor-bitwise,
}
use mathlib.Core.Path.{◌≡◌, sym, ◌∙◌}
use native.Mathlib.Omega.{arith}
use native.Mathlib.Nat.{pow-suc}
use ion_dtn_terrestrial.Prelude.Bits.{bit_or_step, zero-bit_or, bit_or-zero, bit_or-shift, half_lt}

differ_lt : (a b : ℕ) → a < 2 → b < 2 → differ a b < 2
differ_lt zero b h l = l
differ_lt (suc zero) zero h l = omega arith
differ_lt (suc zero) (suc zero) h l = omega arith
differ_lt (suc zero) (suc (suc b)) h l = absurd (omega arith)
differ_lt (suc (suc a)) b h l = absurd (omega arith)

xor_digits_lt : (n a b k : ℕ) → a < 2 ^ k → b < 2 ^ k → digits (λ b. b) differ n a b < 2 ^ k
xor_digits_lt zero a b k h l = l
xor_digits_lt (suc n) zero b k h l = l
xor_digits_lt (suc n) (suc a) b zero h l = absurd (omega arith)
xor_digits_lt (suc n) (suc a) b (suc k) h l =
    let wide : 2 ^ suc k ≡ 2 ^ k * 2 = pow-suc 2 k in
    omega (
      arith,
      wide,
      differ_lt (suc a % 2) (b % 2) (omega arith) (omega arith),
      xor_digits_lt n (suc a / 2) (b / 2) k (half_lt k (suc a) h) (half_lt k b l),
    )

-- Numbers of k bits have an exclusive or of k bits.
pub bit_xor_lt : (k a b : ℕ) → a < 2 ^ k → b < 2 ^ k → bit_xor a b < 2 ^ k
bit_xor_lt k a b h l = rw (bit_xor-bitwise a b) (xor_digits_lt a a b k h l)

or_comm_fuel : (n a b : ℕ) → a ≤ n → bit_or a b ≡ bit_or b a
or_comm_fuel n zero b h = zero-bit_or b ∙ sym (bit_or-zero b)
or_comm_fuel zero (suc a) b h = absurd (omega arith)
or_comm_fuel (suc n) (suc a) b h = omega (
  arith,
  bit_or_step (suc a) b,
  bit_or_step b (suc a),
  or_comm_fuel n (suc a / 2) (b / 2) (omega arith),
)

pub bit_or_comm : (a b : ℕ) → bit_or a b ≡ bit_or b a
bit_or_comm a b = or_comm_fuel a a b (omega arith)

-- `b | (a << k)` for b below 2^k.
pub bit_or-shifted : (k a b : ℕ) → b < 2 ^ k → bit_or b (a * 2 ^ k) ≡ a * 2 ^ k + b
bit_or-shifted k a b h = bit_or_comm b (a * 2 ^ k) ∙ bit_or-shift k a b h

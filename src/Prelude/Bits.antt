-- ===== src/Prelude/Bits.antt =====
-- Masks, shifts and disjoint `|` as arithmetic. `x & (2^k - 1)` is `low_bits x k`, `x >> k` is
-- `shr x k`, and bit k of x is `test_bit x k`.
use Prim.Native.Nat.{
  ℕ, zero, suc, ◌+◌, ◌*◌, ◌/◌, ◌%◌, ◌^◌, ◌≤◌, ◌<◌, max, bit_or, digits, bit_or-bitwise,
}
use mathlib.Core.Path.{◌≡◌, refl, ap, ◌∙◌}
use mathlib.Core.List.{List}
use mathlib.Core.Bool.{Bool, true, false}
use mathlib.Core.Logic.{ite}
use native.Mathlib.Decide.{ℕ_discrete}
use native.Mathlib.Omega.{arith}
use native.Mathlib.Nat.{pow-suc}

abbrev pub low_bits : ℕ → ℕ → ℕ
low_bits x k = x % 2 ^ k

abbrev pub shr : ℕ → ℕ → ℕ
shr x k = x / 2 ^ k

abbrev pub test_bit : ℕ → ℕ → ℕ
test_bit x k = x / 2 ^ k % 2

abbrev pub IsByte : ℕ → Type 0
IsByte b = b < 256

abbrev pub Bytes : Type 0
Bytes = List ℕ

abbrev or_digits : ℕ → ℕ → ℕ → ℕ
or_digits n a b = digits (λ b. b) max n a b

or_digits_fuel : (n m a b : ℕ) → a ≤ n → a ≤ m → or_digits n a b ≡ or_digits m a b
or_digits_fuel zero zero a b p q = refl
or_digits_fuel zero (suc m) zero b p q = refl
or_digits_fuel zero (suc m) (suc a) b p q = absurd (omega arith)
or_digits_fuel (suc n) zero zero b p q = refl
or_digits_fuel (suc n) zero (suc a) b p q = absurd (omega arith)
or_digits_fuel (suc n) (suc m) zero b p q = refl
or_digits_fuel (suc n) (suc m) (suc a) b p q =
    omega (arith, or_digits_fuel n m (suc a / 2) (b / 2) (omega arith) (omega arith))

pub zero-bit_or : (b : ℕ) → bit_or 0 b ≡ b
zero-bit_or b = bit_or-bitwise 0 b

pub bit_or_step : (a b : ℕ) → bit_or a b ≡ bit_or (a / 2) (b / 2) * 2 + max (a % 2) (b % 2)
bit_or_step zero b = omega (arith, zero-bit_or b, zero-bit_or (b / 2))
bit_or_step (suc a) b = omega (
  arith,
  bit_or-bitwise (suc a) b,
  bit_or-bitwise (suc a / 2) (b / 2),
  or_digits_fuel a (suc a / 2) (suc a / 2) (b / 2) (omega arith) (omega arith),
)

bit_or-zero_fuel : (n a : ℕ) → a ≤ n → bit_or a 0 ≡ a
bit_or-zero_fuel n zero h = zero-bit_or 0
bit_or-zero_fuel zero (suc a) h = absurd (omega arith)
bit_or-zero_fuel (suc n) (suc a) h =
    omega (arith, bit_or_step (suc a) 0, bit_or-zero_fuel n (suc a / 2) (omega arith))

pub bit_or-zero : (a : ℕ) → bit_or a 0 ≡ a
bit_or-zero a = bit_or-zero_fuel a a (omega arith)

double_bit_or : (a b : ℕ) → bit_or (a * 2) b ≡ bit_or a (b / 2) * 2 + b % 2
double_bit_or a b =
    let half : a * 2 / 2 ≡ a = omega arith in bit_or_step (a * 2) b ∙ rw half (omega arith)

pub half_lt : (k b : ℕ) → b < 2 ^ suc k → b / 2 < 2 ^ k
half_lt k b h = let e : 2 ^ suc k ≡ 2 ^ k * 2 = pow-suc 2 k in omega arith

-- Bits that do not overlap add up: `(a << k) | b` for b below 2^k.
pub bit_or-shift : (k a b : ℕ) → b < 2 ^ k → bit_or (a * 2 ^ k) b ≡ a * 2 ^ k + b
bit_or-shift zero a b h =
    let low : b ≡ 0 = omega arith in
    let one : a * 2 ^ 0 ≡ a = omega arith in rw (low, one) (bit_or-zero a ∙ omega arith)
bit_or-shift (suc k) a b h =
    let wide : a * 2 ^ suc k ≡ a * 2 ^ k * 2 = omega (arith, ap (◌*◌ a) (pow-suc 2 k)) in
    rw wide (omega (arith, double_bit_or (a * 2 ^ k) b, bit_or-shift k a (b / 2) (half_lt k b h)))

-- Two functions that agree below a small bound, by evaluation.
module _ (f g : ℕ → ℕ) where
  unfoldable pub same_below : ℕ → Bool
  unfolding ℕ_discrete
  same_below zero = true
  same_below (suc n) = ite (ℕ_discrete (f n) (g n)) (same_below n) false

  pub same_below→eq : (n : ℕ) → same_below n ≡ true → (i : ℕ) → i < n → f i ≡ g i
  unfolding same_below
  same_below→eq zero e i h = absurd (omega arith)
  same_below→eq (suc n) e i h = ground (arith, same_below→eq n (ground arith) i)

-- The top bit of a byte, set on the low seven bits.
pub or_top_bit : (b : ℕ) → b < 128 → bit_or b 0x80 ≡ b + 128
unfolding same_below
or_top_bit = same_below→eq _ _ 128 refl

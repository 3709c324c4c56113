-- ===== src/Demod/Shift.antt =====
-- The shift register of the frame detector: the ones at its end.
use ion_dtn_terrestrial.Prelude.{
  ℕ, zero, suc, ◌+◌, ◌*◌, ◌%◌, ◌/◌, ◌≤◌, ◌<◌, false, ◌==◌, leb, if◌then◌else◌, ◌≡◌, ◌∙◌, refl,
  subst, arith,
}
use ion_dtn_terrestrial.Prelude.Bits.{bit_or-zero, or_top_bit, same_below, same_below→eq}
use ion_dtn_terrestrial.Nrzi.Line.{IsBit}
use ion_dtn_terrestrial.Demod.{flag, count_ones, shift_in}

-- The byte ends in `run` ones behind a zero, with at most six ones. (The newest bit is bit 7.)
abbrev pub EndsIn : ℕ → ℕ → Type 0
EndsIn zero reg = reg < 128
EndsIn (suc zero) reg = reg / 64 ≡ 2
EndsIn (suc (suc zero)) reg = reg / 32 ≡ 6
EndsIn (suc (suc (suc zero))) reg = reg / 16 ≡ 14
EndsIn (suc (suc (suc (suc zero)))) reg = reg / 8 ≡ 30
EndsIn (suc (suc (suc (suc (suc zero))))) reg = reg / 4 ≡ 62
EndsIn (suc (suc (suc (suc (suc (suc zero)))))) reg = reg / 2 ≡ 126
EndsIn _ reg = reg < 0

pub shift_in-sum : (reg b : ℕ) → reg < 256 → IsBit b → shift_in reg b ≡ reg / 2 + b * 128
shift_in-sum reg zero h k = bit_or-zero (reg / 2) ∙ omega arith
shift_in-sum reg (suc zero) h k = or_top_bit (reg / 2) (omega arith) ∙ omega arith
shift_in-sum reg (suc (suc b)) h k = absurd (omega arith)

-- Seven ones from bit 0 up are the low seven bits.
unfoldable seven_test : ℕ → ℕ
unfolding count_ones
seven_test reg = if leb 7 (count_ones 8 reg) then 1 else 0

abbrev low_test : ℕ → ℕ
low_test reg = if reg % 128 == 127 then 1 else 0

seven_ones : (reg : ℕ) → reg < 256 → seven_test reg ≡ low_test reg
unfolding same_below seven_test
seven_ones = same_below→eq seven_test low_test 256 refl

pub no_seven : (reg : ℕ) → reg < 256 → (reg % 128 == 127) ≡ false → leb 7 (count_ones 8 reg) ≡ false
unfolding seven_test
no_seven reg h k = ground (arith, seven_ones reg h)

EndsIn-byte : (run reg : ℕ) → EndsIn run reg → reg < 254
EndsIn-byte zero reg h = omega arith
EndsIn-byte (suc zero) reg h = omega arith
EndsIn-byte (suc (suc zero)) reg h = omega arith
EndsIn-byte (suc (suc (suc zero))) reg h = omega arith
EndsIn-byte (suc (suc (suc (suc zero)))) reg h = omega arith
EndsIn-byte (suc (suc (suc (suc (suc zero))))) reg h = omega arith
EndsIn-byte (suc (suc (suc (suc (suc (suc zero)))))) reg h = omega arith
EndsIn-byte (suc (suc (suc (suc (suc (suc (suc n))))))) reg h = absurd (omega arith)

EndsIn-suc : (run reg : ℕ) → run ≤ 5 → EndsIn run reg → EndsIn (suc run) (reg / 2 + 128)
EndsIn-suc zero reg k h = omega arith
EndsIn-suc (suc zero) reg k h = omega arith
EndsIn-suc (suc (suc zero)) reg k h = omega arith
EndsIn-suc (suc (suc (suc zero))) reg k h = omega arith
EndsIn-suc (suc (suc (suc (suc zero)))) reg k h = omega arith
EndsIn-suc (suc (suc (suc (suc (suc zero))))) reg k h = omega arith
EndsIn-suc (suc (suc (suc (suc (suc (suc n)))))) reg k h = absurd (omega arith)

no_flag : (run reg : ℕ) → run ≤ 5 → EndsIn run reg → (reg / 2 == 126) ≡ false
no_flag zero reg k h = ground arith
no_flag (suc zero) reg k h = ground arith
no_flag (suc (suc zero)) reg k h = ground arith
no_flag (suc (suc (suc zero))) reg k h = ground arith
no_flag (suc (suc (suc (suc zero)))) reg k h = ground arith
no_flag (suc (suc (suc (suc (suc zero))))) reg k h = ground arith
no_flag (suc (suc (suc (suc (suc (suc n)))))) reg k h = absurd (omega arith)

-- What a bit does that is no end of a flag: the register is no flag and has no seven ones, and its run
-- of ones goes on or begins anew.
pub record Shifted (run b reg : ℕ) : Type 0 where
  pub no_flag : (reg == flag) ≡ false
  pub no_seven : leb 7 (count_ones 8 reg) ≡ false
  pub ends : EndsIn (if b == 1 then run + 1 else 0) reg

pub shift_in-Shifted :
    (run reg b : ℕ) → IsBit b → run ≤ 5 → EndsIn run reg → Shifted run b (shift_in reg b)
shift_in-Shifted run reg zero h k e =
    let byte = EndsIn-byte run reg e in
    let sum : shift_in reg 0 ≡ reg / 2 = shift_in-sum reg 0 (omega arith) h ∙ omega arith in
    rw sum (record {
      no_flag = no_flag run reg k e;
      no_seven = no_seven (reg / 2) (omega arith) (ground arith);
      ends = omega arith;
    })
shift_in-Shifted run reg (suc zero) h k e =
    let byte = EndsIn-byte run reg e in
    let sum : shift_in reg 1 ≡ reg / 2 + 128 = shift_in-sum reg 1 (omega arith) h ∙ omega arith in
    let next : suc run ≡ run + 1 = omega arith in
    rw sum (record {
      no_flag = ground arith;
      no_seven = no_seven (reg / 2 + 128) (omega arith) (ground arith);
      ends = subst (λ n. EndsIn n (reg / 2 + 128)) next (EndsIn-suc run reg k e);
    })
shift_in-Shifted run reg (suc (suc b)) h k e = absurd (omega arith)

-- A zero behind six ones ends a flag.
pub shift_in-flag : (reg : ℕ) → EndsIn 6 reg → shift_in reg 0 ≡ flag
shift_in-flag reg e = shift_in-sum reg 0 (omega arith) (omega arith) ∙ omega arith

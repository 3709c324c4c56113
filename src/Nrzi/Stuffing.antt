-- ===== src/Nrzi/Stuffing.antt =====
-- Bit stuffing and its removal.
use ion_dtn_terrestrial.Prelude.{
  ℕ, ◌+◌, ◌-◌, ◌*◌, ◌≤◌, false, ◌==◌, ltb, if◌then◌else◌, [], ◌∷◌, length, none, some, ◌≡◌, refl,
  subst, arith,
}
use ion_dtn_terrestrial.Nrzi.{Bitstream, stuff_loop, nrzi_bit_stuff, destuff_loop, nrzi_bit_destuff}

-- Stuffing without a buffer: after `ones` ones, up to four.
unfoldable pub stuffed : ℕ → Bitstream → Bitstream
stuffed ones [] = []
stuffed ones (b ∷ bits) =
    if b == 1
    then (if ones == 4 then b ∷ 0 ∷ stuffed 0 bits else b ∷ stuffed (ones + 1) bits)
    else b ∷ stuffed 0 bits

stuff_loop-stuffed :
    (bits : Bitstream) (ones room : ℕ)
    → ones ≤ 4
    → stuff_loop bits ones room
      ≡ (if ltb room (length (stuffed ones bits)) then none else some (stuffed ones bits))
unfolding stuff_loop stuffed
stuff_loop-stuffed [] ones room h = ground arith
stuff_loop-stuffed (b ∷ bits) ones room h = ground (
  arith,
  stuff_loop-stuffed bits 0 (room - 2) (omega arith),
  stuff_loop-stuffed bits 0 (room - 1) (omega arith),
  stuff_loop-stuffed bits (ones + 1) (room - 1),
)

destuff_loop-stuffed :
    (bits : Bitstream) (ones room : ℕ)
    → ones ≤ 4
    → length bits ≤ room
    → destuff_loop (stuffed ones bits) ones false room ≡ some bits
unfolding destuff_loop stuffed
destuff_loop-stuffed [] ones room h k = refl
destuff_loop-stuffed (b ∷ bits) ones room h k =
    ground (
      arith,
      destuff_loop-stuffed bits 0 (room - 1),
      destuff_loop-stuffed bits (ones + 1) (room - 1),
    )

-- The stuffed stream is at most a fifth longer.
pub length-stuffed :
    (bits : Bitstream) (ones : ℕ)
    → ones ≤ 4
    → 5 * length (stuffed ones bits) ≤ 6 * length bits + ones
unfolding stuffed
length-stuffed [] ones h = omega arith
length-stuffed (b ∷ bits) ones h =
    ground (arith, length-stuffed bits 0 (omega arith), length-stuffed bits (ones + 1))

-- The encoder writes the stuffed stream exactly if it fits the buffer.
pub nrzi_bit_stuff-stuffed :
    (bits : Bitstream) (room : ℕ)
    → nrzi_bit_stuff bits room
      ≡ (if ltb room (length (stuffed 0 bits)) then none else some (stuffed 0 bits))
unfolding nrzi_bit_stuff
nrzi_bit_stuff-stuffed bits room = stuff_loop-stuffed bits 0 room (omega arith)

pub nrzi_bit_destuff-stuffed :
    (bits : Bitstream) (room : ℕ)
    → length bits ≤ room
    → nrzi_bit_destuff (stuffed 0 bits) room ≡ some bits
unfolding nrzi_bit_destuff
nrzi_bit_destuff-stuffed bits room h = destuff_loop-stuffed bits 0 room (omega arith) h

-- What was stuffed, in whatever buffer it fitted, is restored by a buffer that holds the original bits.
pub destuff-stuff :
    (bits : Bitstream) (out_size room : ℕ) {sent : Bitstream}
    → nrzi_bit_stuff bits out_size ≡ some sent
    → length bits ≤ room
    → nrzi_bit_destuff sent room ≡ some bits
destuff-stuff bits out_size room {sent} e h =
    let same : stuffed 0 bits ≡ sent = ground (arith, nrzi_bit_stuff-stuffed bits out_size) in
    subst (λ s. nrzi_bit_destuff s room ≡ some bits) same (nrzi_bit_destuff-stuffed bits room h)

-- The number of ones at the end of a stream, where `ones` stood before it.
abbrev pub run_after : ℕ → Bitstream → ℕ
run_after ones [] = ones
run_after ones (b ∷ bits) = run_after (if b == 1 then ones + 1 else 0) bits

-- No run of ones grows beyond five.
abbrev pub AtMostFive : ℕ → Bitstream → Type 0
AtMostFive ones [] = Unit
AtMostFive ones (b ∷ bits) =
    ((if b == 1 then ones + 1 else 0) ≤ 5) × AtMostFive (if b == 1 then ones + 1 else 0) bits

-- A stuffed stream has no six ones in a row, as a flag has.
pub stuffed-AtMostFive :
    (bits : Bitstream) (ones : ℕ)
    → ones ≤ 4
    → AtMostFive ones (stuffed ones bits) × (run_after ones (stuffed ones bits) ≤ 4)
unfolding stuffed
stuffed-AtMostFive [] ones h = omega arith
stuffed-AtMostFive (b ∷ bits) ones h =
    ground (arith, stuffed-AtMostFive bits 0 (omega arith), stuffed-AtMostFive bits (ones + 1))

pub run_after-AtMostFive :
    (bits : Bitstream) (ones : ℕ) → ones ≤ 5 → AtMostFive ones bits → run_after ones bits ≤ 5
run_after-AtMostFive [] ones h k = h
run_after-AtMostFive (b ∷ bits) ones h (m, k) = run_after-AtMostFive bits _ m k

pub length-stuffed_least : (bits : Bitstream) (ones : ℕ) → length bits ≤ length (stuffed ones bits)
unfolding stuffed
length-stuffed_least [] ones = omega arith
length-stuffed_least (b ∷ bits) ones =
    ground (arith, length-stuffed_least bits 0, length-stuffed_least bits (ones + 1))

-- What the encoder writes has no six ones in a row, as a flag has.
nrzi_bit_stuff-AtMostFive :
    (bits : Bitstream) (out_size : ℕ) {sent : Bitstream}
    → nrzi_bit_stuff bits out_size ≡ some sent
    → AtMostFive 0 sent
nrzi_bit_stuff-AtMostFive bits out_size {sent} e =
    let same : stuffed 0 bits ≡ sent = ground (arith, nrzi_bit_stuff-stuffed bits out_size) in
    subst (AtMostFive 0) same (stuffed-AtMostFive bits 0 (omega arith)).0

-- ===== src/Demod/Packing.antt =====
-- Bytes from bits, and the frame check sequence.
use ion_dtn_terrestrial.Prelude.{
  ℕ, zero, suc, ◌+◌, ◌-◌, ◌*◌, ◌%◌, ◌/◌, ◌^◌, ◌≤◌, ◌<◌, min, true, false, ◌==◌, ltb, le→ltb, leb,
  if◌then◌else◌, [], ◌∷◌, ◌++◌, length, length-append, take-append, drop-append, append-nil, some,
  ◌≡◌, ◌∙◌, refl, arith, All, All-append, bit_xor,
}
use ion_dtn_terrestrial.Prelude.Bits.{Bytes, IsByte, low_bits, shr, same_below, same_below→eq}
use ion_dtn_terrestrial.Prelude.Xor.{bit_xor_lt, bit_or-shifted}
use ion_dtn_terrestrial.Nrzi.{
  Bitstream, fcs_round, fcs_rounds, fcs_loop, nrzi_compute_fcs, byte_bits, bits_of, with_fcs,
}
use ion_dtn_terrestrial.Nrzi.Line.{IsBit}
use ion_dtn_terrestrial.Nrzi.Bitstream.{length-bits_of}
use ion_dtn_terrestrial.Nrzi.Stuffing.{stuffed, nrzi_bit_destuff-stuffed}
use ion_dtn_terrestrial.Demod.{
  frame_byte, frame_bytes, read_behind, rx_fcs, frame_content, check_frame, close_frame,
}
use ion_dtn_terrestrial.Demod.Detection.{flag_start}

unfoldable packed : ℕ → ℕ
unfolding byte_bits frame_byte
packed b = frame_byte 8 0 0 (byte_bits 8 b)

packed_byte : (b : ℕ) → IsByte b → packed b ≡ b
unfolding packed same_below
packed_byte = same_below→eq packed (λ b. b) 256 refl

pub frame_bytes-bits_of :
    (bytes : Bytes) → All IsByte bytes → frame_bytes (length bytes) (bits_of bytes) ≡ bytes
unfolding frame_bytes bits_of byte_bits frame_byte packed
frame_bytes-bits_of [] h = refl
frame_bytes-bits_of (b ∷ bytes) (h, hs) = cc (packed_byte b h, frame_bytes-bits_of bytes hs)

byte_bits-IsBit : (n b : ℕ) → All IsBit (byte_bits n b)
unfolding byte_bits
byte_bits-IsBit zero b = tt
byte_bits-IsBit (suc n) b = (omega arith, byte_bits-IsBit n (shr b 1))

pub bits_of-IsBit : (bytes : Bytes) → All IsBit (bits_of bytes)
unfolding bits_of
bits_of-IsBit [] = tt
bits_of-IsBit (b ∷ bytes) =
    All-append IsBit (byte_bits 8 b) (bits_of bytes) (byte_bits-IsBit 8 b) (bits_of-IsBit bytes)

-- The check sequence has sixteen bits.
fcs_round_lt : (crc : ℕ) → crc < 2 ^ 16 → fcs_round crc < 2 ^ 16
unfolding fcs_round
fcs_round_lt crc h = ground (arith, bit_xor_lt 16 (crc / 2 ^ 1) 0x8408 (omega arith) (omega arith))

fcs_rounds_lt : (n crc : ℕ) → crc < 2 ^ 16 → fcs_rounds n crc < 2 ^ 16
unfolding fcs_rounds
fcs_rounds_lt zero crc h = h
fcs_rounds_lt (suc n) crc h = fcs_rounds_lt n (fcs_round crc) (fcs_round_lt crc h)

fcs_loop_lt :
    (crc : ℕ) (bytes : Bytes) → crc < 2 ^ 16 → All IsByte bytes → fcs_loop crc bytes < 2 ^ 16
unfolding fcs_loop
fcs_loop_lt crc [] h k = h
fcs_loop_lt crc (b ∷ bytes) h (k, ks) =
    fcs_loop_lt (fcs_rounds 8 (bit_xor crc b)) bytes
      (fcs_rounds_lt 8 (bit_xor crc b) (bit_xor_lt 16 crc b h (omega (arith, k)))) ks

pub nrzi_compute_fcs_lt : (bytes : Bytes) → All IsByte bytes → nrzi_compute_fcs bytes < 2 ^ 16
unfolding nrzi_compute_fcs
nrzi_compute_fcs_lt bytes h =
    bit_xor_lt 16 (fcs_loop 0xFFFF bytes) 0xFFFF (fcs_loop_lt 0xFFFF bytes (omega arith) h)
      (omega arith)

rx_fcs-with_fcs :
    (fcs : ℕ) (rest : Bytes)
    → fcs < 2 ^ 16
    → rx_fcs (low_bits fcs 8 ∷ low_bits (shr fcs 8) 8 ∷ rest) ≡ fcs
rx_fcs-with_fcs fcs rest h =
    bit_or-shifted 8 (fcs / 2 ^ 8 % 2 ^ 8) (fcs % 2 ^ 8) (omega arith) ∙ omega (arith, h)

abbrev fcs_bytes : Bytes → Bytes
fcs_bytes bytes =
    low_bits (nrzi_compute_fcs bytes) 8 ∷ low_bits (shr (nrzi_compute_fcs bytes) 8) 8 ∷ []

pub with_fcs-IsByte : (bytes : Bytes) → All IsByte bytes → All IsByte (with_fcs bytes)
with_fcs-IsByte bytes h = All-append IsByte bytes (fcs_bytes bytes) h (omega arith, omega arith)

le→leb : (a b : ℕ) → a ≤ b → leb a b ≡ true
le→leb a b h = ground arith

==-refl : (a : ℕ) → (a == a) ≡ true
==-refl a = ground arith

frame_content-flag_start : (sent : Bitstream) → frame_content (sent ++ flag_start) ≡ sent
unfolding frame_content
frame_content-flag_start sent =
    let count : length (sent ++ flag_start) ≡ length sent + 7 = length-append sent flag_start in
    let kept : (if leb 7 (length sent + 7) then length sent + 7 - 7 else length sent + 7)
        ≡ length sent =
      ground arith in
    rw (count, kept) (take-append sent flag_start)

check_frame-with_fcs :
    (behind : ℕ → ℕ) (bytes : Bytes)
    → All IsByte bytes
    → 16 ≤ length bytes
    → length bytes ≤ 328
    → check_frame behind (bits_of (with_fcs bytes)) ≡ some bytes
unfolding check_frame read_behind
check_frame-with_fcs behind bytes h low high =
    let all = with_fcs bytes in
    let n : length all ≡ length bytes + 2 = length-append bytes (fcs_bytes bytes) in
    let bits : length (bits_of all) ≡ length all * 8 = length-bits_of all in
    let long : ltb (length all * 8) (16 * 8) ≡ false =
      le→ltb (length all * 8) (16 * 8) (omega (arith, n, low)) in
    let number : length all * 8 / 8 ≡ length all = omega arith in
    let least : min (length all) 330 ≡ length all = omega (arith, n, high) in
    let none_behind : length all - 330 ≡ 0 = omega (arith, n, high) in
    let packed_back = frame_bytes-bits_of all (with_fcs-IsByte bytes h) in
    let less : length all - 2 ≡ length bytes = omega (arith, n) in
    let fcs = rx_fcs-with_fcs (nrzi_compute_fcs bytes) [] (nrzi_compute_fcs_lt bytes h) in
    let passes : leb 2 (length all) ≡ true = le→leb 2 (length all) (omega (arith, n)) in
    rw
      (
        bits,
        long,
        number,
        least,
        none_behind,
        packed_back,
        append-nil all,
        less,
        take-append bytes (fcs_bytes bytes),
        drop-append bytes (fcs_bytes bytes),
        fcs,
        passes,
        le→leb 16 (length bytes) low,
        ==-refl (nrzi_compute_fcs bytes),
      )
      refl

-- A frame of 16 to 328 bytes with its check sequence, stuffed and closed by a flag, is delivered.
pub close_frame-stuffed :
    (behind : ℕ → ℕ) (bytes : Bytes)
    → All IsByte bytes
    → 16 ≤ length bytes
    → length bytes ≤ 328
    → close_frame behind (stuffed 0 (bits_of (with_fcs bytes)) ++ flag_start) ≡ some bytes
unfolding close_frame
close_frame-stuffed behind bytes h low high =
    let all = with_fcs bytes in
    let bits : length (bits_of all) ≤ 4096 =
      omega (arith, length-bits_of all, length-append bytes (fcs_bytes bytes), high) in
    let restored = nrzi_bit_destuff-stuffed (bits_of all) 4096 bits in
    rw (frame_content-flag_start (stuffed 0 (bits_of all)), restored)
      (check_frame-with_fcs behind bytes h low high)

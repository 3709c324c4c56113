-- ===== src/Nrzi.antt =====
-- kiss-interface/nrzi.c: the frame check sequence, bit stuffing, flags and NRZI. A bit is a byte
-- that is 0 or 1, and a bitstream is the list of them.
pub mod Stuffing
pub mod Line
pub mod Bitstream
mod Runs
use ion_dtn_terrestrial.Prelude.{
  ℕ, zero, suc, ◌+◌, ◌-◌, ◌*◌, ◌%◌, ◌/◌, ◌^◌, Bool, true, false, ◌&&◌, ◌||◌, ◌==◌, leb, ltb, not,
  if◌then◌else◌, List, [], ◌∷◌, ◌++◌, length, Option, none, some, ◌>>=◌, ◌>>◌, fail_if, bit_or,
  bit_xor,
}
use ion_dtn_terrestrial.Prelude.Bits.{Bytes, low_bits, shr, test_bit}

abbrev pub Bitstream : Type 0
Bitstream = List ℕ

abbrev pub max_frame_bytes : ℕ
max_frame_bytes = 330

abbrev pub max_bits : ℕ
max_bits = 4096

abbrev pub preamble_flags : ℕ
preamble_flags = 80

abbrev pub closing_flags : ℕ
closing_flags = 3

-- One round of the inner loop.
unfoldable pub fcs_round : ℕ → ℕ
fcs_round crc = if test_bit crc 0 == 1 then bit_xor (shr crc 1) 0x8408 else shr crc 1

unfoldable pub fcs_rounds : ℕ → ℕ → ℕ
unfolding fcs_round
fcs_rounds zero crc = crc
fcs_rounds (suc n) crc = fcs_rounds n (fcs_round crc)

unfoldable pub fcs_loop : ℕ → Bytes → ℕ
unfolding fcs_rounds
fcs_loop crc [] = crc
fcs_loop crc (b ∷ bytes) = fcs_loop (fcs_rounds 8 (bit_xor crc b)) bytes

unfoldable pub nrzi_compute_fcs : Bytes → ℕ
unfolding fcs_loop
nrzi_compute_fcs bytes = bit_xor (fcs_loop 0xFFFF bytes) 0xFFFF

-- Bits j to 7 of a byte, where n is 8 - j.
unfoldable pub byte_bits : ℕ → ℕ → Bitstream
byte_bits zero byte = []
byte_bits (suc n) byte = test_bit byte 0 ∷ byte_bits n (shr byte 1)

unfoldable pub bits_of : Bytes → Bitstream
unfolding byte_bits
bits_of [] = []
bits_of (b ∷ bytes) = byte_bits 8 b ++ bits_of bytes

-- The bits that are written; their number is returned.
unfoldable pub nrzi_bytes_to_bits : Bytes → ℕ → Bitstream
unfolding bits_of
nrzi_bytes_to_bits bytes out_size = if ltb out_size (length bytes * 8) then [] else bits_of bytes

-- The loop, with `ones`, and with `room` for out_size - idx.
unfoldable pub stuff_loop : Bitstream → ℕ → ℕ → Option Bitstream
stuff_loop [] ones room = some []
stuff_loop (b ∷ bits) ones room = do
  let fifth = b == 1 && ones + 1 == 5
  fail_if (room == 0)
  fail_if (fifth && room - 1 == 0)
  rest ←
      stuff_loop bits (if b == 1 && not fifth then ones + 1 else 0)
        (if fifth then room - 2 else room - 1)
  some (if fifth then b ∷ 0 ∷ rest else b ∷ rest)

unfoldable pub nrzi_bit_stuff : Bitstream → ℕ → Option Bitstream
unfolding stuff_loop
nrzi_bit_stuff bits out_size = stuff_loop bits 0 out_size

-- The loop, with `ones`, `skip_next` and the room that is left.
unfoldable pub destuff_loop : Bitstream → ℕ → Bool → ℕ → Option Bitstream
destuff_loop [] ones skip_next room = some []
destuff_loop (b ∷ bits) ones true room = destuff_loop bits 0 false room
destuff_loop (b ∷ bits) ones false room = do
  fail_if (room == 0)
  rest ← destuff_loop bits (if b == 1 then ones + 1 else 0) (b == 1 && ones + 1 == 5) (room - 1)
  some (b ∷ rest)

unfoldable pub nrzi_bit_destuff : Bitstream → ℕ → Option Bitstream
unfolding destuff_loop
nrzi_bit_destuff bits out_size = destuff_loop bits 0 false out_size

-- `fixed[i] = (fixed[i] & 0x1F) | 0xE0`
unfoldable pub fix_ssid : ℕ → Bytes → Bytes
fix_ssid i [] = []
fix_ssid zero (b ∷ bytes) = bit_or (low_bits b 5) 0xE0 ∷ bytes
fix_ssid (suc i) (b ∷ bytes) = b ∷ fix_ssid i bytes

unfoldable pub fixed_frame : Bytes → Bytes
unfolding fix_ssid
fixed_frame frame = if leb 14 (length frame) then fix_ssid 13 (fix_ssid 6 frame) else frame

-- The two bytes of the FCS, low byte first.
abbrev pub with_fcs : Bytes → Bytes
with_fcs fixed =
    fixed
    ++ (low_bits (nrzi_compute_fcs fixed) 8 ∷ low_bits (shr (nrzi_compute_fcs fixed) 8) 8 ∷ [])

abbrev pub flag_bits : Bitstream
flag_bits = 0 ∷ 1 ∷ 1 ∷ 1 ∷ 1 ∷ 1 ∷ 1 ∷ 0 ∷ []

unfoldable pub flags : ℕ → Bitstream
flags zero = []
flags (suc n) = flag_bits ++ flags n

unfoldable pub nrzi_frame_to_bitstream : Bytes → ℕ → Option Bitstream
nrzi_frame_to_bitstream frame out_size = do
  fail_if (ltb (length frame) 16 || ltb (max_frame_bytes - 2) (length frame))
  let raw_bits = nrzi_bytes_to_bits (with_fcs (fixed_frame frame)) (max_frame_bytes * 8)
  fail_if (length raw_bits == 0)
  stuffed ← nrzi_bit_stuff raw_bits max_bits
  fail_if (ltb out_size (preamble_flags * 8 + length stuffed + closing_flags * 8))
  some (flags preamble_flags ++ (stuffed ++ flags closing_flags))

-- `state ^= 1` where state is 0 or 1.
abbrev pub toggle : ℕ → ℕ
toggle state = bit_xor state 1

unfoldable pub encode_loop : Bitstream → ℕ → Bitstream
encode_loop [] state = []
encode_loop (b ∷ bits) state =
    let state' = if b == 0 then toggle state else state in state' ∷ encode_loop bits state'

-- `initial_state ? 1 : 0`
abbrev pub start_state : ℕ → ℕ
start_state initial_state = if initial_state == 0 then 0 else 1

-- The bits that are written; their number is returned.
unfoldable pub nrzi_encode : Bitstream → ℕ → ℕ → Bitstream
unfolding encode_loop
nrzi_encode bits out_size initial_state =
    if ltb out_size (length bits) then [] else encode_loop bits (start_state initial_state)

unfoldable pub decode_loop : Bitstream → ℕ → Bitstream
decode_loop [] prev = []
decode_loop (b ∷ bits) prev = (if b == prev then 1 else 0) ∷ decode_loop bits b

unfoldable pub nrzi_decode : Bitstream → ℕ → ℕ → Bitstream
unfolding decode_loop
nrzi_decode bits out_size initial_state =
    if ltb out_size (length bits) then [] else decode_loop bits (start_state initial_state)

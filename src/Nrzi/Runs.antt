-- ===== src/Nrzi/Runs.antt =====
-- Runs of kiss-interface/nrzi.c at concrete inputs, and its theorems applied at them.
use ion_dtn_terrestrial.Prelude.{
  ◌+◌, ◌*◌, ◌≤◌, ltb, ◌||◌, if◌then◌else◌, [], ◌∷◌, length, replicate, none, some, ◌≡◌, refl, arith,
}
use ion_dtn_terrestrial.Prelude.Bits.{Bytes}
use ion_dtn_terrestrial.Nrzi.{
  Bitstream, nrzi_compute_fcs, nrzi_bytes_to_bits, nrzi_bit_stuff, nrzi_bit_destuff,
  nrzi_frame_to_bitstream, nrzi_encode,
}
use ion_dtn_terrestrial.Nrzi.Stuffing.{destuff-stuff}
use ion_dtn_terrestrial.Nrzi.Bitstream.{wire, frame_to_bitstream-wire}

-- "123456789", whose CRC-16/X-25 is 0x906E.
check_value :
    nrzi_compute_fcs (b'1' ∷ b'2' ∷ b'3' ∷ b'4' ∷ b'5' ∷ b'6' ∷ b'7' ∷ b'8' ∷ b'9' ∷ []) ≡ 0x906E
unfolding nrzi_compute_fcs
check_value = refl

bits_of_0x0d : nrzi_bytes_to_bits (0x0D ∷ []) 8 ≡ 1 ∷ 0 ∷ 1 ∷ 1 ∷ 0 ∷ 0 ∷ 0 ∷ 0 ∷ []
unfolding nrzi_bytes_to_bits
bits_of_0x0d = refl

abbrev six_ones : Bitstream
six_ones = 1 ∷ 1 ∷ 1 ∷ 1 ∷ 1 ∷ 1 ∷ 0 ∷ []

abbrev six_ones_sent : Bitstream
six_ones_sent = 1 ∷ 1 ∷ 1 ∷ 1 ∷ 1 ∷ 0 ∷ 1 ∷ 0 ∷ []

stuff_six_ones : nrzi_bit_stuff six_ones 8 ≡ some six_ones_sent
unfolding nrzi_bit_stuff
stuff_six_ones = refl

stuff_no_room : nrzi_bit_stuff six_ones 7 ≡ none
unfolding nrzi_bit_stuff
stuff_no_room = refl

encode_six_ones : nrzi_encode six_ones 8 0 ≡ 0 ∷ 0 ∷ 0 ∷ 0 ∷ 0 ∷ 0 ∷ 1 ∷ []
unfolding nrzi_encode
encode_six_ones = refl

destuff-stuff_example : nrzi_bit_destuff six_ones_sent 7 ≡ some six_ones
destuff-stuff_example = destuff-stuff six_ones 8 7 stuff_six_ones (omega arith)

abbrev short_frame : Bytes
short_frame = replicate 16 0x41

frame_to_bitstream-wire_example :
    (nrzi_frame_to_bitstream short_frame 100 ≡ (
      if ltb (length short_frame) 16
        || (ltb 328 (length short_frame) || ltb 100 (length (wire short_frame)))
      then none
      else some (wire short_frame)))
    × (5 * length (wire short_frame) ≤ 48 * length short_frame + 3416)
frame_to_bitstream-wire_example = frame_to_bitstream-wire short_frame 100

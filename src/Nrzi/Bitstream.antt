-- ===== src/Nrzi/Bitstream.antt =====
-- `nrzi_frame_to_bitstream` against the stream that it describes.
use ion_dtn_terrestrial.Prelude.{
  ℕ, zero, suc, ◌+◌, ◌*◌, ◌≤◌, ◌<◌, ◌||◌, ltb, if◌then◌else◌, [], ◌∷◌, ◌++◌, length, length-append,
  none, some, ◌≡◌, ◌∙◌, refl, ap, arith,
}
use ion_dtn_terrestrial.Prelude.Bits.{Bytes, low_bits, shr}
use ion_dtn_terrestrial.Nrzi.{
  Bitstream, bits_of, byte_bits, nrzi_bytes_to_bits, fix_ssid, fixed_frame, with_fcs,
  nrzi_compute_fcs, flags, nrzi_frame_to_bitstream,
}
use ion_dtn_terrestrial.Nrzi.Stuffing.{
  stuffed, length-stuffed, length-stuffed_least, nrzi_bit_stuff-stuffed,
}

length-fix_ssid : (i : ℕ) (frame : Bytes) → length (fix_ssid i frame) ≡ length frame
unfolding fix_ssid
length-fix_ssid i [] = refl
length-fix_ssid zero (b ∷ frame) = refl
length-fix_ssid (suc i) (b ∷ frame) = ap suc (length-fix_ssid i frame)

pub length-fixed_frame : (frame : Bytes) → length (fixed_frame frame) ≡ length frame
unfolding fixed_frame
length-fixed_frame frame =
    ground (arith, length-fix_ssid 13 (fix_ssid 6 frame), length-fix_ssid 6 frame)

pub length-bits_of : (bytes : Bytes) → length (bits_of bytes) ≡ length bytes * 8
unfolding bits_of byte_bits
length-bits_of [] = omega arith
length-bits_of (b ∷ bytes) = omega (arith, length-bits_of bytes)

length-flags : (n : ℕ) → length (flags n) ≡ n * 8
unfolding flags
length-flags zero = omega arith
length-flags (suc n) = omega (arith, length-flags n)

-- The bits between the flags: the frame with its check sequence, stuffed.
abbrev pub content_bits : Bytes → Bitstream
content_bits frame = stuffed 0 (bits_of (with_fcs (fixed_frame frame)))

-- The whole stream of a frame.
abbrev pub wire : Bytes → Bitstream
wire frame = flags 80 ++ (content_bits frame ++ flags 3)

length-with_fcs : (frame : Bytes) → length (with_fcs (fixed_frame frame)) ≡ length frame + 2
length-with_fcs frame =
    let fcs = nrzi_compute_fcs (fixed_frame frame) in
    length-append (fixed_frame frame) (low_bits fcs 8 ∷ low_bits (shr fcs 8) 8 ∷ [])
    ∙ omega (arith, length-fixed_frame frame)

raw_length :
    (frame : Bytes) → length (bits_of (with_fcs (fixed_frame frame))) ≡ (length frame + 2) * 8
raw_length frame =
    length-bits_of (with_fcs (fixed_frame frame)) ∙ omega (arith, length-with_fcs frame)

-- What stands between the flags is at most a fifth longer than the frame with its check sequence.
pub length-content_bits :
    (frame : Bytes) → 5 * length (content_bits frame) ≤ 48 * (length frame + 2)
length-content_bits frame = omega (
  arith,
  length-stuffed (bits_of (with_fcs (fixed_frame frame))) 0 (omega arith),
  raw_length frame,
)

pub length-wire : (frame : Bytes) → length (wire frame) ≡ 664 + length (content_bits frame)
length-wire frame = omega (
  arith,
  length-append (flags 80) (content_bits frame ++ flags 3),
  length-append (content_bits frame) (flags 3),
  length-flags 80,
  length-flags 3,
)

-- A frame is refused exactly if it has less than 16 or more than 328 bytes or its stream does not
-- fit the buffer, and otherwise the stream is written: 80 flags, the stuffed bits of the frame with
-- its check sequence, and 3 flags. With the length of the frame that stream grows by no more than
-- 9.6 bits for each byte, so that 4096 bits are enough for 328 bytes.
pub frame_to_bitstream-wire :
    (frame : Bytes) (out_size : ℕ)
    → (nrzi_frame_to_bitstream frame out_size ≡ (
        if ltb (length frame) 16 || (ltb 328 (length frame) || ltb out_size (length (wire frame)))
        then none
        else some (wire frame)))
      × (5 * length (wire frame) ≤ 48 * length frame + 3416)
unfolding nrzi_frame_to_bitstream nrzi_bytes_to_bits
frame_to_bitstream-wire frame out_size = (
  ground (
    arith,
    length-with_fcs frame,
    raw_length frame,
    length-wire frame,
    length-content_bits frame,
    nrzi_bit_stuff-stuffed (bits_of (with_fcs (fixed_frame frame))) 4096,
  ),
  omega (arith, length-wire frame, length-content_bits frame),
)

pub content_bits_nonempty : (frame : Bytes) → 0 < length (content_bits frame)
content_bits_nonempty frame =
    omega (arith, length-stuffed_least (bits_of (with_fcs (fixed_frame frame))) 0, raw_length frame)

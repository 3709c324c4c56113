-- ===== src/Demod/Frames.antt =====
-- The streams that nrzi.c makes of frames, in the frame detector.
use ion_dtn_terrestrial.Prelude.{
  ℕ, zero, suc, ◌+◌, ◌*◌, ◌^◌, ◌≤◌, [], ◌∷◌, ◌++◌, length, append_assoc, ◌≡◌, ◌∙◌, sym, ap, arith,
  All, bit_or,
}
use ion_dtn_terrestrial.Prelude.Bits.{Bytes, IsByte, low_bits}
use ion_dtn_terrestrial.Prelude.Xor.{bit_or-shifted}
use ion_dtn_terrestrial.Nrzi.{Bitstream, bits_of, with_fcs, fix_ssid, fixed_frame, flag_bits, flags}
use ion_dtn_terrestrial.Nrzi.Line.{IsBit}
use ion_dtn_terrestrial.Nrzi.Stuffing.{stuffed, stuffed-AtMostFive}
use ion_dtn_terrestrial.Nrzi.Bitstream.{
  content_bits, wire, length-content_bits, length-fixed_frame, content_bits_nonempty,
}
use ion_dtn_terrestrial.Demod.{idle_detector}
use ion_dtn_terrestrial.Demod.Detection.{
  and_then, detect_all, ready, detect_two, flags_when_ready, flags_when_idle, content_between,
}
use ion_dtn_terrestrial.Demod.Packing.{bits_of-IsBit, close_frame-stuffed}

-- A frame that nrzi.c accepts: 16 to 328 bytes.
pub record IsFrame (frame : Bytes) : Type 0 where
  pub bytes : All IsByte frame
  pub long : 16 ≤ length frame
  pub short : length frame ≤ 328

pub stuffed-IsBit : (bits : Bitstream) (ones : ℕ) → All IsBit bits → All IsBit (stuffed ones bits)
unfolding stuffed
stuffed-IsBit [] ones h = tt
stuffed-IsBit (b ∷ bits) ones (h, hs) =
    ground (arith, stuffed-IsBit bits 0 hs, stuffed-IsBit bits (ones + 1) hs)

fix_ssid-IsByte : (i : ℕ) (frame : Bytes) → All IsByte frame → All IsByte (fix_ssid i frame)
unfolding fix_ssid
fix_ssid-IsByte i [] h = tt
fix_ssid-IsByte zero (b ∷ frame) (h, hs) =
    let set : bit_or (low_bits b 5) 0xE0 ≡ 7 * 2 ^ 5 + low_bits b 5 =
      bit_or-shifted 5 7 (low_bits b 5) (omega arith) in
    (omega (arith, set), hs)
fix_ssid-IsByte (suc i) (b ∷ frame) (h, hs) = (h, fix_ssid-IsByte i frame hs)

fixed_frame-IsByte : (frame : Bytes) → All IsByte frame → All IsByte (fixed_frame frame)
unfolding fixed_frame
fixed_frame-IsByte frame h =
    ground (arith, h, fix_ssid-IsByte 13 (fix_ssid 6 frame) (fix_ssid-IsByte 6 frame h))

module _ (behind : ℕ → ℕ) where
  content_when_ready :
      (frame : Bytes)
      → IsFrame frame
      → detect_all behind (content_bits frame ++ flag_bits) ready ≡ (ready, fixed_frame frame ∷ [])
  content_when_ready frame h =
      let all = with_fcs (fixed_frame frame) in
      let between =
        content_between behind (content_bits frame) (content_bits_nonempty frame)
          (stuffed-IsBit (bits_of all) 0 (bits_of-IsBit all))
          (stuffed-AtMostFive (bits_of all) 0 (omega arith)).0
          (omega (arith, length-content_bits frame, h.short)) in
      let closed =
        close_frame-stuffed behind (fixed_frame frame) (fixed_frame-IsByte frame h.bytes)
          (omega (arith, length-fixed_frame frame, h.long))
          (omega (arith, length-fixed_frame frame, h.short)) in
      between ∙ ap (λ o. (ready, and_then o [])) closed

  -- Behind the preamble, a frame and its closing flags deliver the frame.
  pub after_preamble :
      (frame : Bytes)
      → IsFrame frame
      → detect_all behind (content_bits frame ++ flags 3) ready ≡ (ready, fixed_frame frame ∷ [])
  unfolding flags
  after_preamble frame h = rw (sym (append_assoc (content_bits frame) flag_bits (flags 2))) (
      detect_two behind (content_bits frame ++ flag_bits) (flags 2) ready ready ready
        (fixed_frame frame ∷ []) [] (content_when_ready frame h) (flags_when_ready behind 2))

  pub wire_when_ready :
      (frame : Bytes)
      → IsFrame frame
      → detect_all behind (wire frame) ready ≡ (ready, fixed_frame frame ∷ [])
  wire_when_ready frame h =
      detect_two behind (flags 80) (content_bits frame ++ flags 3) ready ready ready []
        (fixed_frame frame ∷ []) (flags_when_ready behind 80) (after_preamble frame h)

  pub wire_when_idle :
      (frame : Bytes)
      → IsFrame frame
      → detect_all behind (wire frame) idle_detector.framer ≡ (ready, fixed_frame frame ∷ [])
  wire_when_idle frame h =
      detect_two behind (flags 80) (content_bits frame ++ flags 3) idle_detector.framer ready ready
        [] (fixed_frame frame ∷ []) (flags_when_idle behind 79) (after_preamble frame h)

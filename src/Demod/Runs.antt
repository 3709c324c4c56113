-- ===== src/Demod/Runs.antt =====
-- The frame detector of kiss-interface/afsk_demod.c at a concrete frame.
use ion_dtn_terrestrial.Prelude.{
  ℕ, [], append-nil, ◌≤◌, ap, ◌∷◌, map, length, replicate, ◌≡◌, refl, arith,
}
use ion_dtn_terrestrial.Prelude.Bits.{Bytes}
use ion_dtn_terrestrial.Nrzi.{nrzi_encode, fixed_frame}
use ion_dtn_terrestrial.Nrzi.Bitstream.{wire, length-wire, length-content_bits}
use ion_dtn_terrestrial.Demod.{
  Demod, afsk_demod_init, feed_detector, afsk_demod_feed_bit, afsk_demod_process, shift_in,
  count_ones,
}
use ion_dtn_terrestrial.Demod.Line.{received_by}
use ion_dtn_terrestrial.Demod.RoundTrip.{stream, process-stream}

register : shift_in 0x7E 1 ≡ 0xBF
register = refl

ones_from_bit_0 : count_ones 8 0x5F ≡ 5
unfolding count_ones
ones_from_bit_0 = refl

nothing_on_a_silent_line :
    Demod.received (afsk_demod_process (λ i. 0) (replicate 40 0) afsk_demod_init) ≡ []
unfolding afsk_demod_process afsk_demod_feed_bit feed_detector
nothing_on_a_silent_line = refl

abbrev short_frame : Bytes
short_frame = replicate 16 0x41

abbrev line_size : ℕ
line_size = 4096

sent_fits : length (stream (short_frame ∷ [])) ≤ line_size
sent_fits = omega (
  arith,
  ap length (append-nil (wire short_frame)),
  length-wire short_frame,
  length-content_bits short_frame,
)

process-stream_example :
    (received_by 0
        (afsk_demod_process
          (λ i. 0)
          (nrzi_encode (stream (short_frame ∷ [])) line_size 0)
          afsk_demod_init).received
      ≡ map fixed_frame (short_frame ∷ []))
    × (received_by 1
          (afsk_demod_process
            (λ i. 0)
            (nrzi_encode (stream (short_frame ∷ [])) line_size 0)
            afsk_demod_init).received
        ≡ map fixed_frame (short_frame ∷ []))
process-stream_example =
    process-stream (λ i. 0) short_frame [] line_size
      (record { bytes = omega arith; long = omega arith; short = omega arith }, tt) sent_fits

-- ===== src/Kiss/Decode.antt =====
-- The decoder on any input: the buffer is never overrun, and what it delivers fits.
use ion_dtn_terrestrial.Prelude.{
  ℕ, ◌+◌, ◌-◌, ◌≤◌, List, [], ◌∷◌, length, length-append, ◌≡◌, arith, All,
}
use ion_dtn_terrestrial.Prelude.Bits.{Bytes}
use ion_dtn_terrestrial.Kiss.{
  Decoder, Outcome, more, frame, error, len, max_payload, noted, kiss_decoder_feed, feed_all,
  payload_of, unescape,
}

-- `buf` is an array of KISS_MAX_PAYLOAD + 1 bytes.
abbrev pub IsValid : Decoder → Type 0
IsValid dec = len dec ≤ max_payload + 1

abbrev pub Fits : ℕ → Outcome → Type 0
Fits out_size more = Unit
Fits out_size (frame payload) = (length payload ≤ out_size) × (length payload ≤ max_payload)
Fits out_size error = Unit

length-payload_of : (buf : Bytes) → length (payload_of buf) ≡ length buf - 1
length-payload_of [] = omega arith
length-payload_of (c ∷ rest) = omega arith

feed_safe :
    (dec : Decoder) (byte out_size : ℕ)
    → IsValid dec
    → IsValid (kiss_decoder_feed dec byte out_size).0
      × Fits out_size (kiss_decoder_feed dec byte out_size).1
unfolding kiss_decoder_feed
feed_safe dec byte out_size h = ground (
  arith,
  length-append dec.buf (byte ∷ []),
  length-append dec.buf (unescape byte ∷ []),
  length-payload_of dec.buf,
)

noted-Fits :
    (out_size : ℕ) (outcome : Outcome) (events : List Outcome)
    → Fits out_size outcome
    → All (Fits out_size) events
    → All (Fits out_size) (noted outcome events)
noted-Fits out_size more events h k = k
noted-Fits out_size (frame payload) events h k = (h, k)
noted-Fits out_size error events h k = (h, k)

-- From a buffer within its array, any bytes leave it within its array, and every payload that is
-- copied out fits both `out_size` and KISS_MAX_PAYLOAD.
pub feed_all_safe :
    (bytes : Bytes) (dec : Decoder) (out_size : ℕ)
    → IsValid dec
    → IsValid (feed_all dec bytes out_size).0 × All (Fits out_size) (feed_all dec bytes out_size).1
unfolding feed_all
feed_all_safe [] dec out_size h = (h, tt)
feed_all_safe (byte ∷ bytes) dec out_size h =
    let step = feed_safe dec byte out_size h in
    let (valid, fits) =
      feed_all_safe bytes (kiss_decoder_feed dec byte out_size).0 out_size step.0 in
    (valid, noted-Fits out_size _ _ step.1 fits)

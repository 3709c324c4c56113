-- ===== src/Commands/Receive.antt =====
-- The command receive of kiss-interface/main.c, and the frame that the command send writes.
use ion_dtn_terrestrial.Prelude.{
  ℕ, ◌+◌, ◌*◌, ◌≤◌, ◌<◌, All, Bool, true, false, List, [], ◌∷◌, ◌++◌, length, Option, none, some,
  ◌≡◌, ◌∙◌, refl, sym, ap, arith, append_assoc, le→ltb,
}
use ion_dtn_terrestrial.Prelude.Bits.{Bytes}
use ion_dtn_terrestrial.Kiss.{
  Decoder, Outcome, more, frame, error, kiss_decoder_init, kiss_decoder_feed, max_payload, feed_all,
  noted,
}
use ion_dtn_terrestrial.Kiss.Encode.{kiss_encode_total, data_frame}
use ion_dtn_terrestrial.Kiss.RoundTrip.{feed_all-append}
use ion_dtn_terrestrial.Ax25.{ax25_strip_frame, max_info}
use ion_dtn_terrestrial.Ax25.Callsign.{IsCallsign, shown}
use ion_dtn_terrestrial.Ax25.Exchange.{strip-build_callsigns, length-build_frame}
use ion_dtn_terrestrial.Commands.{
  encode_packet, send_packet, cmd_send, Reading, interrupted, failed, received, Packet, Fields,
  max_callsign, in_buffers, strip_in_buffers, printed_fields, printed_packet, receive_bytes,
  receive_loop, cmd_receive, whole_write,
}

-- What comes in before read() fails, and whether it never does.
abbrev pub heard : List Reading → Bytes × Bool
heard [] = ([], true)
heard (interrupted ∷ readings) = heard readings
heard (failed ∷ readings) = ([], false)
heard (received read_buf ∷ readings) = (read_buf ++ (heard readings).0, (heard readings).1)

-- The frames of which both callsigns fit the buffers, and what is read from the frames.
abbrev pub FitsFields : Option Fields → Type 0
FitsFields none = Unit {0}
FitsFields (some (src, dst, info)) = (length src < max_callsign) × (length dst < max_callsign)

abbrev pub FitsOutcome : Outcome → Type 0
FitsOutcome (frame kiss_payload) = FitsFields (ax25_strip_frame kiss_payload)
FitsOutcome _ = Unit {0}

abbrev pub packet_read : Outcome → List Packet
packet_read (frame kiss_payload) = printed_fields (ax25_strip_frame kiss_payload)
packet_read _ = []

abbrev pub packets_read : List Outcome → List Packet
packets_read [] = []
packets_read (outcome ∷ outcomes) = packet_read outcome ++ packets_read outcomes

pub in_buffers-fits :
    (overflown : Fields → Option Fields) (fields : Option Fields)
    → FitsFields fields
    → in_buffers overflown fields ≡ fields
in_buffers-fits overflown none h = refl
in_buffers-fits overflown (some (src, dst, info)) (from, to) = ground arith

module _ (overflown : Fields → Option Fields) where
  abbrev pub packets_of : List Outcome → List Packet
  packets_of [] = []
  packets_of (outcome ∷ outcomes) = printed_packet overflown outcome ++ packets_of outcomes

  packets_of-noted :
      (outcome : Outcome) (outcomes : List Outcome)
      → packets_of (noted outcome outcomes)
        ≡ printed_packet overflown outcome ++ packets_of outcomes
  unfolding printed_packet
  packets_of-noted more outcomes = refl
  packets_of-noted (frame payload) outcomes = refl
  packets_of-noted error outcomes = refl

  packets_of-append :
      (xs ys : List Outcome) → packets_of (xs ++ ys) ≡ packets_of xs ++ packets_of ys
  packets_of-append [] ys = refl
  packets_of-append (x ∷ xs) ys =
      ap (printed_packet overflown x ++◌) (packets_of-append xs ys)
      ∙ sym (append_assoc (printed_packet overflown x) (packets_of xs) (packets_of ys))

  receive_bytes-feed_all :
      (dec : Decoder) (bytes : Bytes)
      → receive_bytes overflown dec bytes
        ≡ ((feed_all dec bytes max_payload).0, packets_of (feed_all dec bytes max_payload).1)
  unfolding receive_bytes feed_all
  receive_bytes-feed_all dec [] = refl
  receive_bytes-feed_all dec (b ∷ bytes) =
      let (dec', outcome) = kiss_decoder_feed dec b max_payload in
      let (last, outcomes) = feed_all dec' bytes max_payload in
      rw (receive_bytes-feed_all dec' bytes)
        (ap (λ (p : List Packet). (last, p)) (sym (packets_of-noted outcome outcomes)))

  receive_loop-heard :
      (dec : Decoder) (readings : List Reading)
      → receive_loop overflown dec readings
        ≡ (packets_of (feed_all dec (heard readings).0 max_payload).1, (heard readings).1)
  unfolding receive_loop
  receive_loop-heard dec [] = unfold feed_all in refl
  receive_loop-heard dec (interrupted ∷ readings) = receive_loop-heard dec readings
  receive_loop-heard dec (failed ∷ readings) = unfold feed_all in refl
  receive_loop-heard dec (received read_buf ∷ readings) =
      let (dec', outcomes) = feed_all dec read_buf max_payload in
      rw
        (
          receive_bytes-feed_all dec read_buf,
          receive_loop-heard dec' readings,
          feed_all-append read_buf (heard readings).0 dec max_payload,
          packets_of-append,
        )
        refl

  printed_packet-fits :
      (outcome : Outcome)
      → FitsOutcome outcome
      → printed_packet overflown outcome ≡ packet_read outcome
  unfolding printed_packet strip_in_buffers
  printed_packet-fits (frame payload) h =
      ap printed_fields (in_buffers-fits overflown (ax25_strip_frame payload) h)
  printed_packet-fits more h = refl
  printed_packet-fits error h = refl

  packets_of-fits :
      (outcomes : List Outcome)
      → All FitsOutcome outcomes
      → packets_of outcomes ≡ packets_read outcomes
  packets_of-fits [] h = refl
  packets_of-fits (outcome ∷ outcomes) (fits, h) =
      rw (printed_packet-fits outcome fits, packets_of-fits outcomes h) refl

  pub cmd_receive-packets :
      (readings : List Reading)
      → cmd_receive overflown readings ≡ (
        packets_of (feed_all kiss_decoder_init (heard readings).0 max_payload).1,
        (heard readings).1,
      )
  unfolding cmd_receive
  cmd_receive-packets readings = receive_loop-heard kiss_decoder_init readings

  -- If the callsigns of all valid AX.25 frames that come in have at most 8 characters each, with
  -- their numbers, so that they fit the 9-byte buffers: cmd_receive prints the packets of the valid
  -- AX.25 frames among the frames that the KISS decoder reports of all the bytes that come in
  -- before read() fails, if it does, in order, neither how the bytes are split into readings nor an
  -- interrupted reading making a difference; it returns -1 exactly if read() fails.
  pub cmd_receive-heard :
      (readings : List Reading)
      → All FitsOutcome (feed_all kiss_decoder_init (heard readings).0 max_payload).1
      → cmd_receive overflown readings ≡ (
        packets_read (feed_all kiss_decoder_init (heard readings).0 max_payload).1,
        (heard readings).1,
      )
  cmd_receive-heard readings h =
      cmd_receive-packets readings ∙ ap (λ p. (p, (heard readings).1)) (packets_of-fits _ h)

-- A packet that is encoded is one KISS frame, of an AX.25 frame that is read as its fields.
pub encode_packet-read :
    {dst src : Bytes} {d s : ℕ} (info : Bytes)
    → IsCallsign dst d
    → IsCallsign src s
    → length info ≤ max_info
    → (f : Bytes) × (encode_packet dst src info ≡ some (data_frame f))
      × (length f ≤ max_payload)
      × (ax25_strip_frame f ≡ some (shown src s, shown dst d, info))
unfolding encode_packet
encode_packet-read info to from short =
    let (f, built, read) = strip-build_callsigns info max_payload to from short (omega arith) in
    let sized = length-build_frame info max_payload to from short (omega arith) built in
    (f, rw built (kiss_encode_total f (3 + length f * 2) (omega arith)), omega arith, read)

-- cmd_send with two callsigns of up to six letters and a payload that fits hands one frame to
-- write(), and returns 0 exactly if write() takes the whole of it.
pub cmd_send_total :
    (write : Bytes → Option ℕ) {src dst : Bytes} {s d : ℕ} (payload : Bytes)
    → IsCallsign src s
    → IsCallsign dst d
    → length payload ≤ max_info
    → (kiss_frame : Bytes) × (encode_packet dst src payload ≡ some kiss_frame)
      × (cmd_send write src dst payload
          ≡ (some kiss_frame, whole_write (write kiss_frame) (length kiss_frame)))
unfolding cmd_send send_packet
cmd_send_total write payload from to short =
    let (f, encoded, small, read) = encode_packet-read payload to from short in
    (data_frame f, encoded, rw (le→ltb max_info (length payload) short, encoded) refl)

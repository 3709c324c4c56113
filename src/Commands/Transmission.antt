-- ===== src/Commands/Transmission.antt =====
-- Messages of the command send of kiss-interface/main.c that the command receive prints.
use ion_dtn_terrestrial.Prelude.{
  ℕ, ◌+◌, ◌*◌, ◌≤◌, All, Bool, true, ltb, List, [], ◌∷◌, ◌++◌, map, length, Option, some, ◌≡◌, ◌∙◌,
  refl, ap, arith, ltb→le, Bool-cases, inl, inr,
}
use ion_dtn_terrestrial.Prelude.Bits.{Bytes}
use ion_dtn_terrestrial.Kiss.{
  Decoder, Outcome, frame, ready, kiss_decoder_init, max_payload, feed_all, fend,
}
use ion_dtn_terrestrial.Kiss.Encode.{kiss_encode_total, data_frame}
use ion_dtn_terrestrial.Kiss.RoundTrip.{reported, alone, feed_all-append, resume}
use ion_dtn_terrestrial.Ax25.{ax25_strip_frame, max_info}
use ion_dtn_terrestrial.Ax25.Callsign.{IsCallsign, shown}
use ion_dtn_terrestrial.Commands.{
  send_packet, cmd_send, Reading, Packet, Fields, in_buffers, strip_in_buffers, printed_fields,
  printed_packet, cmd_receive,
}
use ion_dtn_terrestrial.Commands.Receive.{
  heard, FitsFields, in_buffers-fits, packets_of, cmd_receive-packets, encode_packet-read,
}

-- What goes over the line when messages are sent one after the other, and the packets it makes.
pub data Transmitted (write : Bytes → Option ℕ) : List Packet → Bytes → Type 0 where
  silence : Transmitted write [] []
  then_sent :
      {src dst : Bytes} {s d : ℕ} (payload : Bytes) {kiss_frame rest : Bytes}
      {packets : List Packet}
      → IsCallsign src s
      → IsCallsign dst d
      → cmd_send write src dst payload ≡ (some kiss_frame, true)
      → Transmitted write packets rest
      → Transmitted write
          (record { src_call = shown src s; dst_call = shown dst d; info = payload } ∷ packets)
          (kiss_frame ++ rest)

-- The frame that a successful cmd_send has written.
pub sent_frame :
    (write : Bytes → Option ℕ) {src dst : Bytes} {s d : ℕ} (payload : Bytes) {kiss_frame : Bytes}
    → IsCallsign src s
    → IsCallsign dst d
    → cmd_send write src dst payload ≡ (some kiss_frame, true)
    → (f : Bytes) × (kiss_frame ≡ data_frame f)
      × (length f ≤ max_payload)
      × (ax25_strip_frame f ≡ some (shown src s, shown dst d, payload))
      × (length payload ≤ max_info)
unfolding cmd_send send_packet
sent_frame write payload from to e = elim (Bool-cases (ltb max_info (length payload))) [
  | inl long ↦ let never = rw long at e in cc
  | inr fits ↦
      let short = ltb→le max_info (length payload) fits in
      let (f, encoded, small, read) = encode_packet-read payload to from short in
      let sent = rw (fits, encoded) at e in (f, cc, small, read, short)
]

feed-data_frame :
    (f : Bytes)
    → length f ≤ max_payload
    → feed_all ready (data_frame f) max_payload ≡ (ready, frame f ∷ [])
feed-data_frame f small =
    let accepted : reported f max_payload ≡ frame f = ground arith in
    alone f (2 * length f + 3) max_payload (kiss_encode_total f (2 * length f + 3) (omega arith))
    ∙ ap (λ (o : Outcome). (ready, o ∷ [])) accepted

-- Frames and the packets they carry.
pub data Carry : List Bytes → List Packet → Type 0 where
  no_frames : Carry [] []
  carries :
      {f src dst info : Bytes} {s d : ℕ} {frames : List Bytes} {packets : List Packet}
      → IsCallsign src s
      → IsCallsign dst d
      → length info ≤ max_info
      → ax25_strip_frame f ≡ some (shown src s, shown dst d, info)
      → Carry frames packets
      → Carry
          (f ∷ frames)
          (record { src_call = shown src s; dst_call = shown dst d; info = info } ∷ packets)

pub feed_all-Transmitted :
    {write : Bytes → Option ℕ} {packets : List Packet} {bytes : Bytes}
    → Transmitted write packets bytes
    → (frames : List Bytes) × (feed_all ready bytes max_payload ≡ (ready, map frame frames))
      × Carry frames packets
feed_all-Transmitted silence = ([], unfold feed_all in refl, no_frames)
feed_all-Transmitted {write} (then_sent payload {kiss_frame} {rest} from to e t) =
    let (f, wire, small, read, short) = sent_frame write payload from to e in
    let (frames, reports, carried) = feed_all-Transmitted t in
    (
      f ∷ frames,
      feed_all-append kiss_frame rest ready max_payload
          ∙ ap (λ b. resume (feed_all ready b max_payload) rest max_payload) wire
          ∙ ap (λ (r : Decoder × List Outcome). resume r rest max_payload) (feed-data_frame f small)
          ∙ ap (λ (r : Decoder × List Outcome). (r.0, frame f ∷ r.1)) reports,
      carries from to short read carried,
    )

-- A decoder that has just been initialised waits for the FEND with which the first frame begins.
feed_init :
    (bytes : Bytes)
    → (feed_all kiss_decoder_init (fend ∷ bytes) max_payload).1
      ≡ (feed_all ready (fend ∷ bytes) max_payload).1
unfolding feed_all
feed_init bytes = refl

pub first-Transmitted :
    {write : Bytes → Option ℕ} {packets : List Packet} {bytes : Bytes}
    → Transmitted write packets bytes
    → (feed_all kiss_decoder_init bytes max_payload).1 ≡ (feed_all ready bytes max_payload).1
first-Transmitted silence = unfold feed_all in refl
first-Transmitted {write} (then_sent payload {kiss_frame} {rest} from to e t) =
    let (f, wire, small, read, short) = sent_frame write payload from to e in
    rw wire (unfold data_frame in feed_init _)

-- Both callsigns fit the buffers of whoever reads the packet.
abbrev pub FitsBuffers : Packet → Type 0
FitsBuffers packet = FitsFields (some (packet.src_call, packet.dst_call, packet.info))

pub strip_in_buffers-read :
    (overflown : Fields → Option Fields) (f src dst info : Bytes)
    → ax25_strip_frame f ≡ some (src, dst, info)
    → FitsFields (some (src, dst, info))
    → strip_in_buffers overflown f ≡ some (src, dst, info)
unfolding strip_in_buffers
strip_in_buffers-read overflown f src dst info read fits =
    ap (in_buffers overflown) read ∙ in_buffers-fits overflown (some (src, dst, info)) fits

module _ (overflown : Fields → Option Fields) where
  printed_packet-read :
      (f src dst info : Bytes)
      → ax25_strip_frame f ≡ some (src, dst, info)
      → FitsFields (some (src, dst, info))
      → printed_packet overflown (frame f)
        ≡ record { src_call = src; dst_call = dst; info = info } ∷ []
  unfolding printed_packet
  printed_packet-read f src dst info read fits =
      ap printed_fields (strip_in_buffers-read overflown f src dst info read fits)

  packets_of-Carry :
      {frames : List Bytes} {packets : List Packet}
      → Carry frames packets
      → All FitsBuffers packets
      → packets_of overflown (map frame frames) ≡ packets
  packets_of-Carry no_frames h = refl
  packets_of-Carry (carries {f} {src} {dst} {info} {s} {d} from to short read carried) (fits, h) =
      rw
        (
          printed_packet-read f (shown src s) (shown dst d) info read fits,
          packets_of-Carry carried h,
        )
        refl

  -- Messages that cmd_send has sent one after the other, between callsigns of up to six letters
  -- which have at most 8 characters with their numbers and so fit the 9-byte buffers (six letters
  -- and a number of two digits do not), are printed by cmd_receive one by one, in order, each with
  -- its callsigns in upper case and with their numbers, and with its payload, however the bytes are
  -- split into readings and whatever interrupts them.
  pub receive-Transmitted :
      {write : Bytes → Option ℕ} {packets : List Packet} (readings : List Reading)
      → Transmitted write packets (heard readings).0
      → All FitsBuffers packets
      → (cmd_receive overflown readings).0 ≡ packets
  receive-Transmitted readings t fits =
      let (frames, reports, carried) = feed_all-Transmitted t in
      ap (λ (r : List Packet × Bool). r.0) (cmd_receive-packets overflown readings)
      ∙ ap (packets_of overflown)
          (first-Transmitted t ∙ ap (λ (r : Decoder × List Outcome). r.1) reports)
      ∙ packets_of-Carry carried fits

-- ===== src/Commands/Echo.antt =====
-- The command echo of kiss-interface/main.c: what it sends back.
use ion_dtn_terrestrial.Prelude.{
  ℕ, ◌+◌, ◌≤◌, All, Bool, true, false, List, [], ◌∷◌, ◌++◌, map, length, Option, none, some, ◌≡◌,
  ◌∙◌, refl, sym, ap, append_assoc, append-nil, arith, ◌==◌,
}
use ion_dtn_terrestrial.Prelude.Bits.{Bytes}
use ion_dtn_terrestrial.Kiss.{
  Decoder, Outcome, more, frame, error, kiss_decoder_init, kiss_decoder_feed, max_payload, feed_all,
  noted,
}
use ion_dtn_terrestrial.Kiss.RoundTrip.{feed_all-append}
use ion_dtn_terrestrial.Ax25.{ax25_strip_frame, hdr_len, max_info}
use ion_dtn_terrestrial.Ax25.Callsign.{IsCallsign, shown}
use ion_dtn_terrestrial.Ax25.Exchange.{build_frame-shown}
use ion_dtn_terrestrial.Commands.{
  encode_packet, Fields, Reading, interrupted, failed, received, Packet, Attempt, retransmitted,
  EchoState, unless_done, cmd_send, echo_reply, retransmit_reply, echo_bytes, echo_loop, cmd_echo,
}
use ion_dtn_terrestrial.Commands.Receive.{heard, FitsFields, cmd_send_total}
use ion_dtn_terrestrial.Commands.Transmission.{
  FitsBuffers, strip_in_buffers-read, Transmitted, silence, then_sent, Carry, no_frames, carries,
  feed_all-Transmitted, first-Transmitted,
}

abbrev add_reply : Option Bytes → List Bytes → List Bytes
add_reply none replies = replies
add_reply (some reply) replies = reply ∷ replies

add_reply-append :
    (reply : Option Bytes) (xs ys : List Bytes)
    → add_reply reply (xs ++ ys) ≡ add_reply reply xs ++ ys
add_reply-append none xs ys = refl
add_reply-append (some reply) xs ys = refl

-- A port on which every write succeeds, while the program runs.
abbrev pub open_port : List Bytes → Bytes → Attempt
open_port written reply = retransmitted

abbrev going_on : List Bytes → EchoState
going_on written = record { written = written; result = none }

retransmit_reply-open_port :
    (reply : Option Bytes) (written : List Bytes)
    → retransmit_reply open_port reply written ≡ going_on (written ++ add_reply reply [])
unfolding retransmit_reply
retransmit_reply-open_port none written = ap going_on (sym (append-nil written))
retransmit_reply-open_port (some reply) written = refl

add_reply-cons :
    (reply : Option Bytes) (written replies : List Bytes)
    → (written ++ add_reply reply []) ++ replies ≡ written ++ add_reply reply replies
add_reply-cons none written replies = ap (◌++ replies) (append-nil written)
add_reply-cons (some reply) written replies = append_assoc written (reply ∷ []) replies

module _ (overflown : Fields → Option Fields) where
  abbrev pub replies_of : List Outcome → List Bytes
  replies_of [] = []
  replies_of (outcome ∷ outcomes) = add_reply (echo_reply overflown outcome) (replies_of outcomes)

  replies_of-noted :
      (outcome : Outcome) (outcomes : List Outcome)
      → replies_of (noted outcome outcomes)
        ≡ add_reply (echo_reply overflown outcome) (replies_of outcomes)
  unfolding echo_reply
  replies_of-noted more outcomes = refl
  replies_of-noted (frame payload) outcomes = refl
  replies_of-noted error outcomes = refl

  replies_of-append :
      (xs ys : List Outcome) → replies_of (xs ++ ys) ≡ replies_of xs ++ replies_of ys
  replies_of-append [] ys = refl
  replies_of-append (x ∷ xs) ys =
      ap (add_reply (echo_reply overflown x)) (replies_of-append xs ys)
      ∙ add_reply-append (echo_reply overflown x) (replies_of xs) (replies_of ys)

  echo_bytes-open_port :
      (dec : Decoder) (bytes : Bytes) (written : List Bytes)
      → echo_bytes overflown open_port dec bytes written ≡ (
        (feed_all dec bytes max_payload).0,
        going_on (written ++ replies_of (feed_all dec bytes max_payload).1),
      )
  unfolding echo_bytes feed_all
  echo_bytes-open_port dec [] written = ap (λ w. (dec, going_on w)) (sym (append-nil written))
  echo_bytes-open_port dec (b ∷ bytes) written =
      let (dec', outcome) = kiss_decoder_feed dec b max_payload in
      let (last, outcomes) = feed_all dec' bytes max_payload in
      let reply = add_reply (echo_reply overflown outcome) [] in
      ap
        (λ (state : EchoState).
          unless_done state.result (echo_bytes overflown open_port dec' bytes state.written)
            (dec', state))
        (retransmit_reply-open_port (echo_reply overflown outcome) written)
      ∙ echo_bytes-open_port dec' bytes (written ++ reply)
      ∙ ap (λ w. (last, going_on w))
          (add_reply-cons (echo_reply overflown outcome) written (replies_of outcomes)
            ∙ ap (written ++◌) (sym (replies_of-noted outcome outcomes)))

  echo_loop-open_port :
      (dec : Decoder) (readings : List Reading) (written : List Bytes)
      → echo_loop overflown open_port dec readings written ≡ (
        written ++ replies_of (feed_all dec (heard readings).0 max_payload).1,
        (heard readings).1,
      )
  unfolding echo_loop
  echo_loop-open_port dec [] written =
      unfold feed_all in ap (λ w. (w, true)) (sym (append-nil written))
  echo_loop-open_port dec (interrupted ∷ readings) written =
      echo_loop-open_port dec readings written
  echo_loop-open_port dec (failed ∷ readings) written =
      unfold feed_all in ap (λ w. (w, false)) (sym (append-nil written))
  echo_loop-open_port dec (received read_buf ∷ readings) written =
      let (dec', outcomes) = feed_all dec read_buf max_payload in
      let later = replies_of (feed_all dec' (heard readings).0 max_payload).1 in
      rw (echo_bytes-open_port dec read_buf written) (
        echo_loop-open_port dec' readings (written ++ replies_of outcomes)
        ∙ ap (λ w. (w, (heard readings).1))
            (append_assoc written (replies_of outcomes) later
              ∙ ap (written ++◌) (sym (replies_of-append outcomes _)))
        ∙ ap (λ (r : Decoder × List Outcome). (written ++ replies_of r.1, (heard readings).1))
            (sym (feed_all-append read_buf (heard readings).0 dec max_payload)))

abbrev pub takes_all : Bytes → Option ℕ
takes_all bytes = some (length bytes)

abbrev pub swapped : Packet → Packet
swapped packet = record {
  src_call = packet.dst_call;
  dst_call = packet.src_call;
  info = packet.info;
}

abbrev pub concat : List Bytes → Bytes
concat [] = []
concat (bytes ∷ rest) = bytes ++ concat rest

encode_packet-shown :
    {dst src : Bytes} {d s : ℕ} (info : Bytes)
    → IsCallsign dst d
    → IsCallsign src s
    → encode_packet (shown dst d) (shown src s) info ≡ encode_packet dst src info
unfolding encode_packet
encode_packet-shown info to from = rw (build_frame-shown info (hdr_len + max_info) to from) refl

takes_whole : (n : ℕ) → (n == n) ≡ true
takes_whole n = ground arith

pub cmd_send-takes_all :
    {src dst : Bytes} {s d : ℕ} (payload : Bytes)
    → IsCallsign src s
    → IsCallsign dst d
    → length payload ≤ max_info
    → (kiss_frame : Bytes) × (encode_packet dst src payload ≡ some kiss_frame)
      × (cmd_send takes_all src dst payload ≡ (some kiss_frame, true))
cmd_send-takes_all payload from to short =
    let (kiss_frame, encoded, sent) = cmd_send_total takes_all payload from to short in
    (kiss_frame, encoded, sent ∙ ap (λ ok. (some kiss_frame, ok)) (takes_whole (length kiss_frame)))

module _ (overflown : Fields → Option Fields) where
  echo_reply-read :
      (f src dst info : Bytes)
      → ax25_strip_frame f ≡ some (src, dst, info)
      → FitsFields (some (src, dst, info))
      → echo_reply overflown (frame f) ≡ encode_packet src dst info
  unfolding echo_reply
  echo_reply-read f src dst info read fits =
      rw (strip_in_buffers-read overflown f src dst info read fits) refl

  -- The reply to a frame is what the other station sends with cmd_send.
  replies-Transmitted :
      {frames : List Bytes} {packets : List Packet}
      → Carry frames packets
      → All FitsBuffers packets
      → Transmitted takes_all
          (map swapped packets)
          (concat (replies_of overflown (map frame frames)))
  replies-Transmitted no_frames h = silence
  replies-Transmitted (carries {f} {src} {dst} {info} {s} {d} from to short read carried)
        (fits, h) =
      let (kiss_frame, encoded, sent) = cmd_send-takes_all info to from short in
      let reply : echo_reply overflown (frame f) ≡ some kiss_frame =
        echo_reply-read f (shown src s) (shown dst d) info read fits
        ∙ encode_packet-shown info from to
        ∙ encoded in
      rw reply (then_sent info to from sent (replies-Transmitted carried h))

  -- While the port takes what is written, and if the callsigns of all packets fit the buffers, an echo
  -- station answers every packet of a transmission, in order, however the bytes are split into readings, with what cmd_send writes for the same payload
  -- in the opposite direction, and writes nothing else.
  pub cmd_echo-Transmitted :
      {write : Bytes → Option ℕ} {packets : List Packet} (readings : List Reading)
      → Transmitted write packets (heard readings).0
      → All FitsBuffers packets
      → Transmitted takes_all
          (map swapped packets)
          (concat (cmd_echo overflown open_port readings).0)
  unfolding cmd_echo
  cmd_echo-Transmitted readings t fits =
      let (frames, reports, carried) = feed_all-Transmitted t in
      let written : (cmd_echo overflown open_port readings).0
          ≡ replies_of overflown (map frame frames) =
        ap (λ (r : List Bytes × Bool). r.0)
          (echo_loop-open_port overflown kiss_decoder_init readings [])
        ∙ ap (replies_of overflown)
            (first-Transmitted t ∙ ap (λ (r : Decoder × List Outcome). r.1) reports) in
      rw written (replies-Transmitted carried fits)

-- ===== src/Commands/Answers.antt =====
-- The commands of kiss-interface/main.c at two stations: ping, or send, at one, and echo at the
-- other.
use ion_dtn_terrestrial.Prelude.{
  ℕ, suc, ◌+◌, ◌*◌, ◌≤◌, ◌<◌, ◌^◌, ◌%◌, All, Bool, true, false, ◌||◌, [], ◌∷◌, ◌++◌, List, map,
  length, Option, some, ◌≡◌, ◌∙◌, refl, sym, ap, subst, arith, append-nil,
}
use ion_dtn_terrestrial.Prelude.Bits.{Bytes}
use ion_dtn_terrestrial.Kiss.{Decoder, Outcome, frame, kiss_decoder_init, max_payload, feed_all}
use ion_dtn_terrestrial.Kiss.Encode.{data_frame, kiss_encode_total}
use ion_dtn_terrestrial.Ax25.{ax25_strip_frame, max_info}
use ion_dtn_terrestrial.Ax25.Callsign.{IsCallsign, shown}
use ion_dtn_terrestrial.Ax25.Exchange.{strip-build_callsigns, length-build_frame}
use ion_dtn_terrestrial.Ping.{ping_build_payload, ping_parse_payload, ping_payload_len}
use ion_dtn_terrestrial.Ping.RoundTrip.{ping_parse-build, ping_build_total}
use ion_dtn_terrestrial.Commands.{
  Fields, max_callsign, encode_packet, cmd_send, Reading, Packet, cmd_receive, cmd_echo,
}
use ion_dtn_terrestrial.Commands.Receive.{heard, FitsFields}
use ion_dtn_terrestrial.Commands.Transmission.{
  FitsBuffers, strip_in_buffers-read, Transmitted, silence, then_sent, Carry, no_frames, carries,
  feed_all-Transmitted, first-Transmitted, receive-Transmitted,
}
use ion_dtn_terrestrial.Commands.Echo.{
  takes_all, swapped, concat, open_port, cmd_echo-Transmitted, cmd_send-takes_all,
}
use ion_dtn_terrestrial.Commands.Ping.{
  ping_frame, matching_seq, matching_fields, is_reply, replied, wait_reply, PingRound, PingStats,
  count_sent, after_wait, send_ping, ping_loop, cmd_ping,
}
use ion_dtn_terrestrial.Commands.Ping.Wait.{any_reply, arriving, AreInTime, wait_reply-replied}

swapped-FitsBuffers :
    (packets : List Packet) → All FitsBuffers packets → All FitsBuffers (map swapped packets)
swapped-FitsBuffers [] h = tt
swapped-FitsBuffers (packet ∷ packets) ((from, to), h) = ((to, from), swapped-FitsBuffers packets h)

-- The frame of a ping is what cmd_send would send with the same payload.
ping_frame-sent :
    {src dst : Bytes} {s d : ℕ} (seq tx_us : ℕ)
    → IsCallsign src s
    → IsCallsign dst d
    → (payload : Bytes) × (kiss_frame : Bytes) × (ping_build_payload
          (seq % 2 ^ 16)
          tx_us
          ping_payload_len
        ≡ some payload)
      × (ping_frame dst src seq tx_us ≡ some kiss_frame)
      × (cmd_send takes_all src dst payload ≡ (some kiss_frame, true))
unfolding ping_frame encode_packet
ping_frame-sent {src} {dst} seq tx_us from to =
    let (payload, made, fourteen) = ping_build_total (seq % 2 ^ 16) tx_us in
    let short : length payload ≤ max_info = omega (arith, fourteen) in
    let (f, built, read) = strip-build_callsigns payload max_payload to from short (omega arith) in
    let sized = length-build_frame payload max_payload to from short (omega arith) built in
    let (kiss_frame, encoded, sent) = cmd_send-takes_all payload from to short in
    let same : encode_packet dst src payload ≡ some (data_frame f) =
      rw built (kiss_encode_total f (3 + length f * 2) (omega arith)) in
    let wide = kiss_encode_total f (3 + max_payload * 2) (omega arith) in
    (payload, kiss_frame, made, rw (made, built) (wide ∙ sym same ∙ encoded), sent)

-- A ping that an echo station hears and whose reply comes back in time, with the readings `there`
-- at the echo station.
pub record IsAnswered (overflown : Fields → Option Fields) (src dst : Bytes) (timeout_ms seq : ℕ)
    (ping : PingRound) : Type 0 where
  pub goes_out : ping.write_ok ≡ true
  pub has_clock : ping.tx_us < 2 ^ 64
  pub there : List Reading
  pub arrives : ping_frame dst src seq ping.tx_us ≡ some (heard there).0
  pub in_time : AreInTime timeout_ms ping.wait_start ping.rounds
  pub comes_back : arriving ping.rounds ≡ concat (cmd_echo overflown open_port there).0

abbrev pub AreAnswered : (Fields → Option Fields) → Bytes → Bytes → ℕ → ℕ → List PingRound → Type 0
AreAnswered overflown src dst timeout_ms seq [] = Unit {0}
AreAnswered overflown src dst timeout_ms seq (ping ∷ pings) =
    IsAnswered overflown src dst timeout_ms seq ping
    × AreAnswered overflown src dst timeout_ms (suc seq) pings

own_seq : (seq tx_us : ℕ) → matching_seq seq (some (seq % 2 ^ 16, tx_us)) ≡ true
own_seq seq tx_us = ground arith

module _ (overflown : Fields → Option Fields) where
  -- Messages between callsigns that fit the 9-byte buffers, numbers included, which are sent to an
  -- echo station whose port takes what it writes come back, and cmd_receive prints them one by one,
  -- in order, with their payloads and with their callsigns swapped.
  pub receive-echo :
      {write : Bytes → Option ℕ} {packets : List Packet} (there back : List Reading)
      → Transmitted write packets (heard there).0
      → All FitsBuffers packets
      → (heard back).0 ≡ concat (cmd_echo overflown open_port there).0
      → (cmd_receive overflown back).0 ≡ map swapped packets
  receive-echo {write} {packets} there back t fits arrives =
      receive-Transmitted overflown back
        (subst (Transmitted takes_all (map swapped packets)) (sym arrives)
          (cmd_echo-Transmitted overflown there t fits))
        (swapped-FitsBuffers packets fits)

  abbrev any_info : ℕ → List Packet → Bool
  any_info seq [] = false
  any_info seq (packet ∷ packets) =
      matching_seq seq (ping_parse_payload packet.info) || any_info seq packets

  is_reply-read :
      (seq : ℕ) (f src dst info : Bytes)
      → ax25_strip_frame f ≡ some (src, dst, info)
      → FitsFields (some (src, dst, info))
      → is_reply overflown seq (frame f) ≡ matching_seq seq (ping_parse_payload info)
  unfolding is_reply
  is_reply-read seq f src dst info read fits =
      ap (matching_fields seq) (strip_in_buffers-read overflown f src dst info read fits)

  any_reply-Carry :
      (seq : ℕ) {frames : List Bytes} {packets : List Packet}
      → Carry frames packets
      → All FitsBuffers packets
      → any_reply overflown seq (map frame frames) ≡ any_info seq packets
  any_reply-Carry seq no_frames h = refl
  any_reply-Carry seq (carries {f} {src} {dst} {info} {s} {d} from to short read carried)
        (fits, h) =
      rw
        (
          is_reply-read seq f (shown src s) (shown dst d) info read fits,
          any_reply-Carry seq carried h,
        )
        refl

  any_reply-Transmitted :
      (seq : ℕ) {write : Bytes → Option ℕ} {packets : List Packet} {bytes : Bytes}
      → Transmitted write packets bytes
      → All FitsBuffers packets
      → any_reply overflown seq (feed_all kiss_decoder_init bytes max_payload).1
        ≡ any_info seq packets
  any_reply-Transmitted seq t fits =
      let (frames, reports, carried) = feed_all-Transmitted t in
      ap (any_reply overflown seq)
        (first-Transmitted t ∙ ap (λ (r : Decoder × List Outcome). r.1) reports)
      ∙ any_reply-Carry seq carried fits

  answered-replied :
      {src dst : Bytes} {s d : ℕ} (timeout_ms seq : ℕ) (ping : PingRound)
      → IsCallsign src s
      → IsCallsign dst d
      → length (shown src s) < max_callsign
      → length (shown dst d) < max_callsign
      → 0 < timeout_ms
      → IsAnswered overflown src dst timeout_ms seq ping
      → wait_reply overflown seq timeout_ms ping.wait_start ping.rounds ≡ replied
  answered-replied {src} {dst} {s} {d} timeout_ms seq ping from to src_fits dst_fits some_time a =
      let (payload, kiss_frame, made, framed, sent) = ping_frame-sent seq ping.tx_us from to in
      let one : Transmitted takes_all (_ ∷ []) (kiss_frame ++ []) =
        then_sent payload from to sent silence in
      let same : kiss_frame ++ [] ≡ (heard a.there).0 =
        append-nil kiss_frame ∙ some_injective (sym framed ∙ a.arrives) in
      let back =
        cmd_echo-Transmitted overflown a.there (subst (Transmitted takes_all _) same one)
          ((src_fits, dst_fits), tt) in
      let parsed : ping_parse_payload payload ≡ some (seq % 2 ^ 16, ping.tx_us) =
        ap ping_parse_payload (sym (append-nil payload))
        ∙ ping_parse-build (seq % 2 ^ 16) ping.tx_us ping_payload_len [] (omega arith) a.has_clock
            made in
      wait_reply-replied overflown seq timeout_ms ping.wait_start ping.rounds some_time a.in_time (
        ap (λ bytes. any_reply overflown seq (feed_all kiss_decoder_init bytes max_payload).1)
          a.comes_back
        ∙ any_reply-Transmitted seq back ((dst_fits, src_fits), tt)
        ∙ rw (parsed, own_seq seq ping.tx_us) refl)
    where
      some_injective : {x y : Bytes} → some x ≡ some y → x ≡ y
      some_injective e = cc

  ping_loop-answered :
      {src dst : Bytes} {s d : ℕ} (timeout_ms seq : ℕ) (pings : List PingRound) (stats : PingStats)
      → IsCallsign src s
      → IsCallsign dst d
      → length (shown src s) < max_callsign
      → length (shown dst d) < max_callsign
      → 0 < timeout_ms
      → AreAnswered overflown src dst timeout_ms seq pings
      → ((ping_loop overflown src dst timeout_ms (length pings) seq pings stats).sent
          ≡ stats.sent + length pings)
        × ((ping_loop overflown src dst timeout_ms (length pings) seq pings stats).received
            ≡ stats.received + length pings)
  unfolding ping_loop send_ping
  ping_loop-answered timeout_ms seq [] stats from to src_fits dst_fits some_time a = omega arith
  ping_loop-answered {src} {dst} timeout_ms seq (ping ∷ pings) stats from to src_fits dst_fits
        some_time (a, later) =
      let (payload, kiss_frame, made, framed, sent) = ping_frame-sent seq ping.tx_us from to in
      let next = (after_wait (count_sent stats kiss_frame) replied).0 in
      let rest =
        ping_loop-answered timeout_ms (suc seq) pings next from to src_fits dst_fits some_time
          later in
      rw
        (
          framed,
          a.goes_out,
          answered-replied timeout_ms seq ping from to src_fits dst_fits some_time a,
        )
        (omega (arith, rest))

  -- Pings between two callsigns of up to six letters, which have at most 8 characters with their
  -- numbers and so fit the 9-byte buffers of both stations, each of which an echo station hears and
  -- whose reply comes back in time, are all sent and all counted as answered, however the bytes are
  -- split into readings and whatever interrupts them.
  pub cmd_ping-answered :
      {src dst : Bytes} {s d : ℕ} (timeout_ms : ℕ) (pings : List PingRound)
      → IsCallsign src s
      → IsCallsign dst d
      → length (shown src s) < max_callsign
      → length (shown dst d) < max_callsign
      → 0 < timeout_ms
      → AreAnswered overflown src dst timeout_ms 1 pings
      → ((cmd_ping overflown src dst (length pings) timeout_ms pings).sent ≡ length pings)
        × ((cmd_ping overflown src dst (length pings) timeout_ms pings).received ≡ length pings)
  unfolding cmd_ping
  cmd_ping-answered timeout_ms pings from to src_fits dst_fits some_time a =
      omega (arith, ping_loop-answered timeout_ms 1 pings _ from to src_fits dst_fits some_time a)

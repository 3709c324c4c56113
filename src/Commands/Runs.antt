-- ===== src/Commands/Runs.antt =====
-- Runs of the commands of main.c at concrete inputs.
use ion_dtn_terrestrial.Prelude.{
  [], ◌∷◌, ◌++◌, List, take, drop, All, Option, none, some, true, false, ◌≡◌, refl, arith,
}
use ion_dtn_terrestrial.Prelude.Bits.{Bytes}
use ion_dtn_terrestrial.Kiss.{
  kiss_encode, kiss_decoder_feed, kiss_decoder_init, feed_all, max_payload,
}
use ion_dtn_terrestrial.Ping.{ping_build_payload}
use ion_dtn_terrestrial.Ax25.{split_dash, toupper, ax25_build_frame, ax25_strip_frame}
use ion_dtn_terrestrial.Ax25.Runs.{g4dpz_1, m0abc, g4dpz_1-IsCallsign, m0abc-IsCallsign}
use ion_dtn_terrestrial.Commands.{
  Fields, in_buffers, cmd_send, Reading, interrupted, failed, received, Packet, cmd_receive,
  cmd_echo,
}
use ion_dtn_terrestrial.Commands.Receive.{heard, FitsOutcome, packets_read, cmd_receive-heard}
use ion_dtn_terrestrial.Commands.Transmission.{
  FitsBuffers, Transmitted, silence, then_sent, receive-Transmitted,
}
use ion_dtn_terrestrial.Commands.Echo.{takes_all, swapped, concat, open_port}
use ion_dtn_terrestrial.Commands.Answers.{IsAnswered, cmd_ping-answered, receive-echo}
use ion_dtn_terrestrial.Commands.Ping.{ping_frame, cmd_ping, PingRound, read_bytes, no_input}

-- The call does not return from an overflow.
abbrev nothing_left : Fields → Option Fields
nothing_left fields = none

-- "ABCDEF-15"
abbrev six_and_two : Bytes
six_and_two = b'A' ∷ b'B' ∷ b'C' ∷ b'D' ∷ b'E' ∷ b'F' ∷ b'-' ∷ b'1' ∷ b'5' ∷ []

-- "hi" from G4DPZ-1 to M0ABC: the addresses, and what goes over the line.
abbrev hi : Bytes
hi = b'h' ∷ b'i' ∷ []

abbrev pub hi_on_line : Bytes
hi_on_line =
    0xC0 ∷ 0x00 ∷ 0x9A ∷ 0x60 ∷ 0x82 ∷ 0x84 ∷ 0x86 ∷ 0x40 ∷ 0x60 ∷ 0x8E ∷ 0x68 ∷ 0x88 ∷ 0xA0 ∷ 0xB4
    ∷ 0x40 ∷ 0x63 ∷ 0x03 ∷ 0xF0 ∷ b'h' ∷ b'i' ∷ 0xC0 ∷ []

sends_hi : cmd_send takes_all g4dpz_1 m0abc hi ≡ (some hi_on_line, true)
unfolding cmd_send kiss_encode ax25_build_frame
sends_hi = refl

abbrev pub hi_packet : Packet
hi_packet = record {
  src_call = b'G' ∷ b'4' ∷ b'D' ∷ b'P' ∷ b'Z' ∷ b'-' ∷ b'1' ∷ [];
  dst_call = b'M' ∷ b'0' ∷ b'A' ∷ b'B' ∷ b'C' ∷ b'-' ∷ b'0' ∷ [];
  info = hi;
}

pub hi-Transmitted : Transmitted takes_all (hi_packet ∷ []) hi_on_line
unfolding split_dash toupper
hi-Transmitted = then_sent hi g4dpz_1-IsCallsign m0abc-IsCallsign sends_hi silence

hi_fits : FitsBuffers hi_packet
hi_fits = omega arith

-- The line is read in two parts, with a signal in between.
abbrev hi_readings : List Reading
hi_readings =
    received (take 7 hi_on_line)
    ∷ interrupted
    ∷ received (drop 7 hi_on_line ++ (0x01 ∷ []))
    ∷ failed
    ∷ []

hi_printed : cmd_receive nothing_left hi_readings ≡ (hi_packet ∷ [], false)
unfolding cmd_receive ax25_strip_frame kiss_decoder_feed
hi_printed = refl

abbrev two_readings : List Reading
two_readings = received (take 7 hi_on_line) ∷ interrupted ∷ received (drop 7 hi_on_line) ∷ []

receive-Transmitted_example : (cmd_receive nothing_left two_readings).0 ≡ hi_packet ∷ []
receive-Transmitted_example =
    receive-Transmitted nothing_left two_readings hi-Transmitted (hi_fits, tt)

abbrev hi_back : Bytes
hi_back =
    0xC0 ∷ 0x00 ∷ 0x8E ∷ 0x68 ∷ 0x88 ∷ 0xA0 ∷ 0xB4 ∷ 0x40 ∷ 0x62 ∷ 0x9A ∷ 0x60 ∷ 0x82 ∷ 0x84 ∷ 0x86
    ∷ 0x40 ∷ 0x61 ∷ 0x03 ∷ 0xF0 ∷ b'h' ∷ b'i' ∷ 0xC0 ∷ []

hi_echoed : cmd_echo nothing_left open_port two_readings ≡ (hi_back ∷ [], true)
unfolding cmd_echo ax25_strip_frame kiss_decoder_feed kiss_encode ax25_build_frame
hi_echoed = refl

echoed_bytes : hi_back ++ [] ≡ concat (cmd_echo nothing_left open_port two_readings).0
unfolding cmd_echo ax25_strip_frame kiss_decoder_feed kiss_encode ax25_build_frame
echoed_bytes = refl

receive-echo_example :
    (cmd_receive nothing_left (received (take 9 hi_back) ∷ received (drop 9 hi_back) ∷ [])).0
    ≡ swapped hi_packet ∷ []
receive-echo_example =
    receive-echo nothing_left two_readings
      (received (take 9 hi_back) ∷ received (drop 9 hi_back) ∷ []) hi-Transmitted (hi_fits, tt)
      echoed_bytes

-- Ping 1 at 258 microseconds, as it is written and as it is answered.
abbrev ping_sent : Bytes
ping_sent =
    0xC0 ∷ 0x00 ∷ 0x9A ∷ 0x60 ∷ 0x82 ∷ 0x84 ∷ 0x86 ∷ 0x40 ∷ 0x60 ∷ 0x8E ∷ 0x68 ∷ 0x88 ∷ 0xA0 ∷ 0xB4
    ∷ 0x40 ∷ 0x63 ∷ 0x03 ∷ 0xF0 ∷ b'P' ∷ b'I' ∷ b'N' ∷ b'G' ∷ 0 ∷ 1 ∷ 0 ∷ 0 ∷ 0 ∷ 0 ∷ 0 ∷ 0 ∷ 1 ∷ 2
    ∷ 0xC0 ∷ []

abbrev ping_back : Bytes
ping_back =
    0xC0 ∷ 0x00 ∷ 0x8E ∷ 0x68 ∷ 0x88 ∷ 0xA0 ∷ 0xB4 ∷ 0x40 ∷ 0x62 ∷ 0x9A ∷ 0x60 ∷ 0x82 ∷ 0x84 ∷ 0x86
    ∷ 0x40 ∷ 0x61 ∷ 0x03 ∷ 0xF0 ∷ b'P' ∷ b'I' ∷ b'N' ∷ b'G' ∷ 0 ∷ 1 ∷ 0 ∷ 0 ∷ 0 ∷ 0 ∷ 0 ∷ 0 ∷ 1 ∷ 2
    ∷ 0xC0 ∷ []

abbrev one_ping : PingRound
one_ping = record {
  tx_us = 258;
  write_ok = true;
  wait_start = 1000;
  rounds =
      (no_input, 2000)
      ∷ (read_bytes (take 5 ping_back), 3000)
      ∷ (read_bytes (drop 5 ping_back), 4000)
      ∷ [];
}

ping_sent_made : ping_frame m0abc g4dpz_1 1 258 ≡ some ping_sent
unfolding ping_frame kiss_encode ax25_build_frame ping_build_payload
ping_sent_made = refl

ping_echoed : ping_back ≡ concat (cmd_echo nothing_left open_port (received ping_sent ∷ [])).0
unfolding cmd_echo ax25_strip_frame kiss_decoder_feed kiss_encode ax25_build_frame
ping_echoed = refl

one_ping-IsAnswered : IsAnswered nothing_left g4dpz_1 m0abc 5000 1 one_ping
one_ping-IsAnswered = record {
  goes_out = refl;
  has_clock = omega arith;
  there = received ping_sent ∷ [];
  arrives = ping_sent_made;
  in_time = ground arith;
  comes_back = ping_echoed;
}

cmd_ping-answered_example :
    ((cmd_ping nothing_left g4dpz_1 m0abc 1 5000 (one_ping ∷ [])).sent ≡ 1)
    × ((cmd_ping nothing_left g4dpz_1 m0abc 1 5000 (one_ping ∷ [])).received ≡ 1)
unfolding split_dash
cmd_ping-answered_example =
    cmd_ping-answered nothing_left 5000 (one_ping ∷ []) g4dpz_1-IsCallsign m0abc-IsCallsign
      (omega arith) (omega arith) (omega arith) (one_ping-IsAnswered, tt)

-- A reply that comes after the timeout is not counted.
abbrev late_ping : PingRound
late_ping = record one_ping { rounds = (no_input, 6000000) ∷ (read_bytes ping_back, 6000001) ∷ [] }

late_reply : (cmd_ping nothing_left g4dpz_1 m0abc 1 5000 (late_ping ∷ [])).received ≡ 0
unfolding cmd_ping kiss_encode ax25_build_frame ping_build_payload
late_reply = refl

frames_fit : All FitsOutcome (feed_all kiss_decoder_init (heard hi_readings).0 max_payload).1
unfolding feed_all ax25_strip_frame kiss_decoder_feed
frames_fit = ground arith

cmd_receive-heard_example : cmd_receive nothing_left hi_readings ≡ (
  packets_read (feed_all kiss_decoder_init (heard hi_readings).0 max_payload).1,
  (heard hi_readings).1,
)
cmd_receive-heard_example = cmd_receive-heard nothing_left hi_readings frames_fit

-- Six letters and a number of two digits do not fit, and what is printed is left open.
too_long :
    (overflown : Fields → Option Fields) (src info : Bytes)
    → in_buffers overflown (some (src, six_and_two, info)) ≡ overflown (src, six_and_two, info)
too_long overflown src info = ground arith

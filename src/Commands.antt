-- ===== src/Commands.antt =====
-- kiss-interface/main.c: the commands send, receive and echo over an open serial port. What read()
-- and write() yield is given call by call, and `g_running` is cleared where the list of readings
-- ends: a signal that comes within a reading is a list that ends with the bytes up to it. Of what
-- is printed, the fields of each packet are kept.
pub mod Ping
pub mod Receive
pub mod Transmission
pub mod Echo
pub mod Answers
pub mod Options
pub mod Beaconing
pub mod Ltp
mod Runs
mod StationRuns
use ion_dtn_terrestrial.Prelude.{
  ℕ, ◌+◌, ◌*◌, Bool, true, false, ◌&&◌, ◌==◌, ltb, if◌then◌else◌, List, [], ◌∷◌, ◌++◌, length,
  Option, none, some, ◌>>=◌, ◌>>◌,
}
use ion_dtn_terrestrial.Prelude.Bits.{Bytes}
use ion_dtn_terrestrial.Kiss.{
  Decoder, Outcome, frame, kiss_decoder_init, kiss_decoder_feed, kiss_encode, max_payload,
}
use ion_dtn_terrestrial.Ax25.{ax25_build_frame, ax25_strip_frame, hdr_len, max_info}

-- The frame from `src` to `dst`, in the two buffers of a sender.
unfoldable pub encode_packet : Bytes → Bytes → Bytes → Option Bytes
encode_packet dst src info = do
  ax25_frame ← ax25_build_frame dst src info (hdr_len + max_info)
  kiss_encode ax25_frame (3 + length ax25_frame * 2)

-- `written` is what write() returns, with `none` for -1.
abbrev pub whole_write : Option ℕ → ℕ → Bool
whole_write none kiss_len = false
whole_write (some written) kiss_len = written == kiss_len

-- The bytes that are handed to write(), and whether 0 is returned.
unfoldable pub send_packet : (Bytes → Option ℕ) → Option Bytes → Option Bytes × Bool
send_packet write none = (none, false)
send_packet write (some kiss_frame) =
    (some kiss_frame, whole_write (write kiss_frame) (length kiss_frame))

unfoldable pub cmd_send : (Bytes → Option ℕ) → Bytes → Bytes → Bytes → Option Bytes × Bool
unfolding encode_packet send_packet
cmd_send write src dst payload =
    if ltb max_info (length payload)
    then (none, false)
    else send_packet write (encode_packet dst src payload)

-- What read() yields: -1 with EINTR, -1 with another error, and bytes (none of them for 0).
pub data Reading : Type 0 where
  interrupted failed : Reading
  received : Bytes → Reading

-- "[time] src > dst: info"
pub record Packet : Type 0 where
  pub src_call : Bytes
  pub dst_call : Bytes
  pub info : Bytes

-- An invalid frame is skipped.
abbrev pub printed_fields : Option (Bytes × Bytes × Bytes) → List Packet
printed_fields none = []
printed_fields (some (src, dst, info)) = record { src_call = src; dst_call = dst; info = info } ∷ []

-- A source, a destination and an information field.
abbrev pub Fields : Type 0
Fields = Bytes × Bytes × Bytes

-- AX25_MAX_CALLSIGN, the size of the buffers for callsigns.
abbrev pub max_callsign : ℕ
max_callsign = 9

-- With the NUL behind it.
abbrev pub fits_buffer : Bytes → Bool
fits_buffer call = ltb (length call) max_callsign

-- `ax25_strip_frame` copies each callsign into the buffer of its caller whatever its length. Where
-- one does not fit, C does not say what the buffers hold and whether the call returns: `overflown`
-- stands for what the caller is left with.
abbrev pub in_buffers : (Fields → Option Fields) → Option Fields → Option Fields
in_buffers overflown none = none
in_buffers overflown (some (src, dst, info)) =
    if fits_buffer src && fits_buffer dst then some (src, dst, info) else overflown (src, dst, info)

unfoldable pub strip_in_buffers : (Fields → Option Fields) → Bytes → Option Fields
strip_in_buffers overflown kiss_payload = in_buffers overflown (ax25_strip_frame kiss_payload)

-- What becomes of a reply: `g_running` has been cleared after the delay, write() returns -1, or
-- write() takes it, whole or in part.
pub data Attempt : Type 0 where
  stopped write_failed retransmitted : Attempt

-- The replies that were written, and the return value once there is one.
pub record EchoState : Type 0 where
  pub written : List Bytes
  pub result : Option Bool

-- `port` tells what becomes of a reply after those written before.
unfoldable pub retransmit_reply :
    (List Bytes → Bytes → Attempt) → Option Bytes → List Bytes → EchoState
retransmit_reply port none written = record { written = written; result = none }
retransmit_reply port (some echo_kiss) written = elim (port written echo_kiss) [
  | stopped ↦ record { written = written; result = some true }
  | write_failed ↦ record { written = written; result = some false }
  | retransmitted ↦ record { written = written ++ (echo_kiss ∷ []); result = none }
]

-- The loops end as soon as there is a return value.
abbrev pub unless_done {ℓ} : {A : Type ℓ} → Option Bool → A → A → A
unless_done none rest done = rest
unless_done (some ok) rest done = done

-- Only asked where there is one.
abbrev return_value : Option Bool → Bool
return_value none = true
return_value (some ok) = ok

module _ (overflown : Fields → Option Fields) where
  -- The branch on `rc == 1`.
  unfoldable pub printed_packet : Outcome → List Packet
  unfolding strip_in_buffers
  printed_packet (frame kiss_payload) = printed_fields (strip_in_buffers overflown kiss_payload)
  printed_packet _ = []

  unfoldable pub receive_bytes : Decoder → Bytes → Decoder × List Packet
  unfolding printed_packet
  receive_bytes dec [] = (dec, [])
  receive_bytes dec (b ∷ read_buf) =
      let (dec', outcome) = kiss_decoder_feed dec b max_payload in
      let (last, packets) = receive_bytes dec' read_buf in (last, printed_packet outcome ++ packets)

  -- The Boolean says whether 0 is returned.
  unfoldable pub receive_loop : Decoder → List Reading → List Packet × Bool
  unfolding receive_bytes
  receive_loop dec [] = ([], true)
  receive_loop dec (interrupted ∷ readings) = receive_loop dec readings
  receive_loop dec (failed ∷ readings) = ([], false)
  receive_loop dec (received read_buf ∷ readings) =
      let (dec', packets) = receive_bytes dec read_buf in
      let (later, ok) = receive_loop dec' readings in (packets ++ later, ok)

  unfoldable pub cmd_receive : List Reading → List Packet × Bool
  unfolding receive_loop
  cmd_receive readings = receive_loop kiss_decoder_init readings

  -- A frame to be retransmitted with its callsigns swapped, or nothing.
  unfoldable pub echo_reply : Outcome → Option Bytes
  unfolding encode_packet strip_in_buffers
  echo_reply (frame kiss_payload) = do
    (orig_src, orig_dst, info) ← strip_in_buffers overflown kiss_payload
    encode_packet orig_src orig_dst info
  echo_reply _ = none

  unfoldable pub echo_bytes :
      (List Bytes → Bytes → Attempt) → Decoder → Bytes → List Bytes → Decoder × EchoState
  unfolding echo_reply retransmit_reply
  echo_bytes port dec [] written = (dec, record { written = written; result = none })
  echo_bytes port dec (b ∷ read_buf) written =
      let (dec', outcome) = kiss_decoder_feed dec b max_payload in
      let state = retransmit_reply port (echo_reply outcome) written in
      let rest = echo_bytes port dec' read_buf state.written in
      unless_done state.result rest (dec', state)

  unfoldable pub echo_loop :
      (List Bytes → Bytes → Attempt) → Decoder → List Reading → List Bytes → List Bytes × Bool
  unfolding echo_bytes
  echo_loop port dec [] written = (written, true)
  echo_loop port dec (interrupted ∷ readings) written = echo_loop port dec readings written
  echo_loop port dec (failed ∷ readings) written = (written, false)
  echo_loop port dec (received read_buf ∷ readings) written =
      let (dec', state) = echo_bytes port dec read_buf written in
      let rest = echo_loop port dec' readings state.written in
      unless_done state.result rest (state.written, return_value state.result)

  unfoldable pub cmd_echo : (List Bytes → Bytes → Attempt) → List Reading → List Bytes × Bool
  unfolding echo_loop
  cmd_echo port readings = echo_loop port kiss_decoder_init readings []

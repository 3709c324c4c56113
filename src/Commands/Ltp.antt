-- ===== src/Commands/Ltp.antt =====
-- The commands ltp-send and ltp-recv of kiss-interface/main.c, alone and beside a beacon. What poll,
-- read, write and the clock yield is given round by round.
pub mod Delivered
pub mod Packets
use ion_dtn_terrestrial.Prelude.{
  ℕ, suc, Bool, true, false, ltb, if◌then◌else◌, List, [], ◌∷◌, length, take, Option, none, some,
}
use ion_dtn_terrestrial.Prelude.Bits.{Bytes}
use ion_dtn_terrestrial.Kiss.{
  Decoder, Outcome, more, frame, error, kiss_decoder_init, kiss_decoder_feed, max_payload,
}
use ion_dtn_terrestrial.Aprs.{aprs_is_ax25_frame}
use ion_dtn_terrestrial.Beacon.{Beacon}
use ion_dtn_terrestrial.Ltp.Types.{max_block_size}
use ion_dtn_terrestrial.Ltp.Engine.State.{Timespec, Engine, Config, Link}
use ion_dtn_terrestrial.Ltp.Engine.Endpoints.{ltp_engine_init}
use ion_dtn_terrestrial.Ltp.Engine.Export.{ltp_send_block}
use ion_dtn_terrestrial.Ltp.Engine.Process.{ltp_process_segment}
use ion_dtn_terrestrial.Ltp.Engine.Fire.{ltp_fire_expired_timers}
use ion_dtn_terrestrial.Ltp.Engine.Run.{Round, ltp_engine_run, send_result, waited_for}
use ion_dtn_terrestrial.Commands.Beaconing.{Transmission, send_beacon, transmit_if_due}

-- `strncpy` into the sixteen bytes of a callsign, which were 0.
abbrev pub copied_call : Option Bytes → Bytes
copied_call none = []
copied_call (some call) = take 15 call

-- The numbers after the conversion to uint32.
abbrev pub ltp_config : ℕ → ℕ → ℕ → Option Bytes → Option Bytes → Config
ltp_config mtu owlt_ms retries src_call dst_call = record {
  segment_mtu = mtu;
  owlt_ms = owlt_ms;
  max_retries = retries;
  max_block_size = max_block_size;
  src_call = copied_call src_call;
  dst_call = copied_call dst_call;
}

abbrev pub and_run : Engine × Bool → (Engine → Engine × Bool) → Engine × Bool
and_run (eng, true) next = next eng
and_run (eng, false) next = (eng, false)

-- The Boolean says whether 0 is returned.
unfoldable pub cmd_ltp_send :
    Link → Bytes → Bytes → Bytes → Config → Timespec → List Round → Engine × Bool
cmd_ltp_send link local_eid remote_eid payload cfg now rounds =
    and_run (ltp_engine_init local_eid (some cfg)) (λ eng.
      if ltb max_block_size (length payload)
      then (eng, false)
      else and_run (ltp_send_block link now remote_eid payload eng)
          (ltp_engine_run link true rounds))

unfoldable pub cmd_ltp_recv : Link → Bytes → Config → List Round → Engine × Bool
cmd_ltp_recv link local_eid cfg rounds =
    and_run (ltp_engine_init local_eid (some cfg)) (ltp_engine_run link false rounds)

-- What one call of poll, and of read behind it, yields; `no_input` also if read() fails.
pub data Arrival : Type 0 where
  interrupted poll_failed no_input : Arrival
  read_bytes : Bytes → Arrival

-- One round beside a beacon: the times at which the bytes are taken, the timers are fired and the
-- beacon is asked, and its transmission if there is one.
pub record BesideTimes : Type 0 where
  pub byte_time : ℕ → Timespec
  pub fire_time : Timespec
  pub due_time : Timespec
  pub transmission : Transmission

abbrev pub BesideRound : Type 0
BesideRound = Arrival × BesideTimes

-- Every AX.25 frame is only printed.
abbrev pub on_beside : Link → Timespec → Outcome → Engine → Engine
on_beside link now (frame payload) eng =
    let processed = (ltp_process_segment link now payload eng).0 in
    if aprs_is_ax25_frame payload then eng else processed
on_beside link now more eng = eng
on_beside link now error eng = eng

unfoldable pub feed_beside : Link → (ℕ → Timespec) → ℕ → Bytes → Decoder × Engine → Decoder × Engine
feed_beside link time i [] state = state
feed_beside link time i (b ∷ bytes) (dec, eng) =
    let (next, outcome) = kiss_decoder_feed dec b max_payload in
    feed_beside link time (suc i) bytes (next, on_beside link (time i) outcome eng)

pub record Beside : Type 0 where
  pub decoder : Decoder
  pub engine : Engine
  pub beacon : Beacon

-- The end of a round, behind the reading.
unfoldable pub end_beside : Link → BesideTimes → Decoder × Engine → Beacon → Beside
end_beside link times (dec, eng) beacon = record {
  decoder = dec;
  engine = (ltp_fire_expired_timers link times.fire_time eng).0;
  beacon = (transmit_if_due beacon times.due_time times.transmission).0;
}

-- The session that ltp-send waits for: whether it is completed, or cancelled.
abbrev pub session_result : Option ℕ → Engine → Option Bool
session_result none eng = none
session_result (some number) eng = send_result number eng.export_sessions

abbrev pub unless_ended : Option Bool → Engine × Bool → Engine → Engine × Bool
unless_ended none rest eng = rest
unless_ended (some ok) rest eng = (eng, ok)

-- The engine, and whether `rc` is 0. (When a session is completed the beacon transmits once more.)
unfoldable pub beside_rounds : Link → Option ℕ → List BesideRound → Beside → Engine × Bool
unfolding feed_beside end_beside
beside_rounds link waiting [] state = (state.engine, true)
beside_rounds link waiting ((interrupted, times) ∷ rounds) state =
    beside_rounds link waiting rounds state
beside_rounds link waiting ((poll_failed, times) ∷ rounds) state = (state.engine, true)
beside_rounds link waiting ((no_input, times) ∷ rounds) state =
    let next = end_beside link times (state.decoder, state.engine) state.beacon in
    let rest = beside_rounds link waiting rounds next in
    unless_ended (session_result waiting next.engine) rest next.engine
beside_rounds link waiting ((read_bytes bytes, times) ∷ rounds) state =
    let fed = feed_beside link times.byte_time 0 bytes (state.decoder, state.engine) in
    let next = end_beside link times fed state.beacon in
    let rest = beside_rounds link waiting rounds next in
    unless_ended (session_result waiting next.engine) rest next.engine

abbrev pub beside : Beacon → Engine → Beside
beside beacon eng = record { decoder = kiss_decoder_init; engine = eng; beacon = beacon }

-- The branches of main() with `beacon_enabled`, from the beacon on that has been set up and its
-- first transmission.
unfoldable pub send_beside :
    Link
    → Bytes
    → Bytes
    → Bytes
    → Config
    → Timespec
    → Beacon
    → Transmission
    → List BesideRound
    → Engine × Bool
unfolding beside_rounds
send_beside link local_eid remote_eid payload cfg now beacon first rounds =
    and_run (ltp_engine_init local_eid (some cfg)) (λ eng.
      and_run (ltp_send_block link now remote_eid payload eng) (λ sent.
        beside_rounds link (waited_for true sent) rounds
          (beside (send_beacon beacon first).0 sent)))

unfoldable pub recv_beside :
    Link → Bytes → Config → Beacon → Transmission → List BesideRound → Engine × Bool
unfolding beside_rounds
recv_beside link local_eid cfg beacon first rounds =
    and_run (ltp_engine_init local_eid (some cfg))
      (λ eng. beside_rounds link none rounds (beside (send_beacon beacon first).0 eng))

-- ===== src/Commands/StationRuns.antt =====
-- Runs of the command line, the beacon and the LTP stations of main.c at concrete inputs.
use ion_dtn_terrestrial.Prelude.{
  ℕ, ◌*◌, ◌||◌, [], ◌∷◌, List, ltb, none, some, false, ◌≡◌, refl, arith, ◌↔◌, All, List,
}
use ion_dtn_terrestrial.Prelude.Bits.{Bytes}
use ion_dtn_terrestrial.Kiss.{kiss_encode, kiss_decoder_feed, kiss_decoder_init}
use ion_dtn_terrestrial.Ax25.{ax25_build_frame, atoi}
use ion_dtn_terrestrial.Ax25.Runs.{g4dpz_1, m0abc}
use ion_dtn_terrestrial.Beacon.{beacon_init, beacon_transmit, beacon_is_due, zeroed}
use ion_dtn_terrestrial.Beacon.Runs.{callsign, lat, lon}
use ion_dtn_terrestrial.Ltp.Engine.State.{Timespec}
use ion_dtn_terrestrial.Ltp.Engine.Delivery.{IsSent}
use ion_dtn_terrestrial.Ltp.Engine.Endpoints.{ltp_engine_init}
use ion_dtn_terrestrial.Ltp.Engine.Runs.{one_block, one_block_small, link, line, whole-IsGenuine}
use ion_dtn_terrestrial.Commands.Runs.{hi_on_line, hi-Transmitted}
use ion_dtn_terrestrial.Commands.Options.{
  Doubles, CliArgs, CliOption, opt_device, opt_src, opt_dst, opt_count, parsed, mode_ping,
}
use ion_dtn_terrestrial.Commands.Options.Parse.{parse_args, default_args}
use ion_dtn_terrestrial.Commands.Options.Validate.{validate_args}
use ion_dtn_terrestrial.Commands.Options.Required.{HasRequired, validate_args_iff}
use ion_dtn_terrestrial.Commands.Beaconing.{
  Transmission, interrupted, woken, BeaconRound, send_beacon, cmd_beacon,
}
use ion_dtn_terrestrial.Commands.Beaconing.Spacing.{FirstThenSpaced, cmd_beacon-Spaced}
use ion_dtn_terrestrial.Commands.Ltp.{
  ltp_config, read_bytes, BesideTimes, BesideRound, feed_beside, beside, recv_beside,
}
use ion_dtn_terrestrial.Commands.Ltp.Delivered.{BesideAreGenuine, recv_beside-IsSent}
use ion_dtn_terrestrial.Commands.Ltp.Packets.{feed_beside-Transmitted}

-- Frequencies in kHz, and degrees as they are typed.
abbrev khz : Doubles ℕ
unfolding atoi
khz = record {
  strtod = λ text. (atoi text).1;
  zero_degrees = 0;
  default_freq = 144850;
  default_deviation = 3000;
  out_of_band = λ freq. ltb freq 144000 || ltb 146000 freq;
}

abbrev ping_name : Bytes
ping_name = b'p' ∷ b'i' ∷ b'n' ∷ b'g' ∷ []

abbrev port_name : Bytes
port_name = b'/' ∷ b'd' ∷ b'e' ∷ b'v' ∷ b'/' ∷ b't' ∷ []

abbrev ping_options : List CliOption
ping_options = opt_device port_name ∷ opt_src g4dpz_1 ∷ opt_dst m0abc ∷ opt_count (b'3' ∷ []) ∷ []

abbrev ping_args : CliArgs ℕ
unfolding default_args
ping_args = record (default_args khz) {
  device = some port_name;
  src_call = some g4dpz_1;
  dst_call = some m0abc;
  count = (false, 3);
  mode = mode_ping;
}

ping_parsed : parse_args khz (some ping_name) ping_options none ≡ parsed ping_args
unfolding parse_args default_args atoi
ping_parsed = refl

ping_without_device : validate_args khz (record ping_args { device = none }) ≡ none
unfolding validate_args default_args
ping_without_device = refl

validate_args_iff_example :
    (validate_args khz ping_args ≡ some tt) ↔ HasRequired khz mode_ping ping_args
unfolding default_args
validate_args_iff_example = validate_args_iff khz ping_args

abbrev at_second : ℕ → Timespec
at_second n = record { tv_sec = n; tv_nsec = 0 }

-- The whole frame of this beacon has 75 bytes.
abbrev whole_at : ℕ → Transmission
whole_at n = record { written = some 75; sent_time = at_second n }

abbrev beacon_rounds : List BeaconRound
beacon_rounds =
    (interrupted, at_second 50, whole_at 50)
    ∷ (woken, at_second 60, whole_at 60)
    ∷ (woken, at_second 230, whole_at 231)
    ∷ (woken, at_second 350, whole_at 350)
    ∷ (woken, at_second 351, whole_at 352)
    ∷ []

two_intervals :
    (cmd_beacon zeroed callsign lat lon none 120 (whole_at 100) beacon_rounds).1
    ≡ at_second 100 ∷ at_second 231 ∷ at_second 352 ∷ []
unfolding cmd_beacon beacon_init kiss_encode ax25_build_frame beacon_transmit beacon_is_due
two_intervals = refl

cmd_beacon-Spaced_example :
    FirstThenSpaced
      (120 * 1000)
      (cmd_beacon zeroed callsign lat lon none 120 (whole_at 100) beacon_rounds).1
cmd_beacon-Spaced_example =
    cmd_beacon-Spaced zeroed callsign lat lon none 120 (whole_at 100) beacon_rounds (ground arith)

-- A segment that comes alone in its KISS frame.
abbrev times : BesideTimes
times = record {
  byte_time = λ i. at_second 1;
  fire_time = at_second 1;
  due_time = at_second 1;
  transmission = whole_at 1;
}

abbrev rounds : List BesideRound
rounds = (read_bytes line, times) ∷ []

line_is_genuine : BesideAreGenuine one_block one_block_small link rounds (
    beside
      (send_beacon zeroed (whole_at 1)).0
      (ltp_engine_init (b'B' ∷ []) (some (ltp_config 64 1500 7 none none))).0)
unfolding kiss_decoder_feed
line_is_genuine = (
  (
    tt,
    (
      tt,
      (
        tt,
        (
          tt,
          (
            tt,
            (
              tt,
              (tt, (tt, (tt, (tt, (tt, (tt, (tt, (tt, (tt, (λ plain. whole-IsGenuine, tt)))))))))),
            ),
          ),
        ),
      ),
    ),
  ),
  tt,
)

recv_beside-IsSent_example :
    All
      (IsSent one_block)
      (recv_beside link
        (b'B' ∷ [])
        (ltp_config 64 1500 7 none none)
        zeroed
        (whole_at 1)
        rounds).0.deliveries
recv_beside-IsSent_example =
    recv_beside-IsSent one_block one_block_small link (b'B' ∷ []) (ltp_config 64 1500 7 none none)
      zeroed (whole_at 1) rounds line_is_genuine

feed_beside-Transmitted_example :
    (feed_beside link
      (λ i. at_second 1)
      0
      hi_on_line
      (kiss_decoder_init, (ltp_engine_init (b'B' ∷ []) none).0)).1
    ≡ (ltp_engine_init (b'B' ∷ []) none).0
feed_beside-Transmitted_example =
    feed_beside-Transmitted link (λ i. at_second 1) (ltp_engine_init (b'B' ∷ []) none).0
      hi-Transmitted

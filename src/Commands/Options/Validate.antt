-- ===== src/Commands/Options/Validate.antt =====
-- `validate_args` of kiss-interface/main.c.
use ion_dtn_terrestrial.Prelude.{
  ℕ, Bool, true, false, not, ◌&&◌, ◌||◌, ◌==◌, ltb, Option, none, some, ◌>>◌, fail_if,
}
use ion_dtn_terrestrial.Prelude.Bits.{Bytes}
use ion_dtn_terrestrial.Commands.Options.{
  CmdMode, mode_none, mode_send, mode_echo, mode_ping, mode_ltp_send, mode_ltp_recv, mode_beacon,
  mode_bp_send, mode_bp_recv, mode_sdr_beacon, mode_sdr_recv, is_mode, CInt, Doubles, CliArgs,
}

abbrev pub missing : Option Bytes → Bool
missing none = true
missing (some arg) = false

-- `n <= 0`, `n < 0`, `n > most`, and `n < least` for a `least` above 0.
abbrev pub not_positive : CInt → Bool
not_positive (negative, magnitude) = negative || magnitude == 0

abbrev pub is_negative : CInt → Bool
is_negative (negative, magnitude) = negative && ltb 0 magnitude

abbrev pub exceeds : CInt → ℕ → Bool
exceeds (negative, magnitude) most = not negative && ltb most magnitude

abbrev pub is_less : CInt → ℕ → Bool
is_less (negative, magnitude) least = negative || ltb magnitude least

abbrev pub over_ltp : CmdMode → Bool
over_ltp mode =
    is_mode mode mode_ltp_send
    || is_mode mode mode_ltp_recv
    || is_mode mode mode_bp_send
    || is_mode mode mode_bp_recv

module _ {Double : Type 0} (doubles : Doubles Double) where
  unfoldable pub validate_mode : CmdMode → CliArgs Double → Option (Unit {0})
  validate_mode mode args = do
    fail_if (is_mode mode mode_none)
    fail_if (
        missing args.device
        && not (is_mode mode mode_sdr_beacon)
        && not (is_mode mode mode_sdr_recv))
    let between = is_mode mode mode_send || is_mode mode mode_echo || is_mode mode mode_ping
    fail_if (between && missing args.src_call)
    fail_if (between && missing args.dst_call)
    fail_if (is_mode mode mode_send && missing args.payload)
    fail_if (is_mode mode mode_ping && not_positive args.count)
    fail_if (is_mode mode mode_ping && not_positive args.timeout_ms)
    fail_if (over_ltp mode && missing args.local_eid)
    fail_if (is_mode mode mode_ltp_send && missing args.remote_eid)
    fail_if (is_mode mode mode_ltp_send && missing args.payload)
    fail_if (is_mode mode mode_bp_send && missing args.remote_eid)
    fail_if (is_mode mode mode_bp_send && (missing args.payload && missing args.file_path))
    fail_if (is_mode mode mode_beacon && missing args.beacon_callsign)
    fail_if (over_ltp mode && (args.beacon_enabled && missing args.beacon_callsign))
    let beaconing = is_mode mode mode_sdr_beacon
    fail_if (beaconing && missing args.beacon_callsign)
    fail_if (beaconing && doubles.out_of_band args.sdr_freq)
    fail_if (beaconing && (is_negative args.sdr_gain || exceeds args.sdr_gain 89))
    fail_if (beaconing && (is_less args.beacon_interval 10 || exceeds args.beacon_interval 3600))
    let receiving = is_mode mode mode_sdr_recv
    fail_if (receiving && doubles.out_of_band args.sdr_freq)
    fail_if (receiving && (is_negative args.sdr_gain || exceeds args.sdr_gain 76))

  unfoldable pub validate_args : CliArgs Double → Option (Unit {0})
  unfolding validate_mode
  validate_args args = validate_mode args.mode args

-- ===== src/Commands/Options/Required.antt =====
-- What `validate_args` of kiss-interface/main.c requires of each subcommand.
use ion_dtn_terrestrial.Prelude.{
  ℕ, Bool, true, false, Option, none, some, ◌≡◌, ◌≤◌, ◌<◌, ◌↔◌, ◌⊎◌, arith,
}
use ion_dtn_terrestrial.Prelude.Bits.{Bytes}
use ion_dtn_terrestrial.Commands.Options.{
  CmdMode, mode_none, mode_send, mode_receive, mode_echo, mode_ping, mode_ltp_send, mode_ltp_recv,
  mode_beacon, mode_bp_send, mode_bp_recv, mode_sdr_beacon, mode_sdr_recv, CInt, Doubles, CliArgs,
}
use ion_dtn_terrestrial.Commands.Options.Validate.{validate_mode, validate_args}

abbrev pub IsGiven : Option Bytes → Type 0
IsGiven none = ⊥
IsGiven (some text) = Unit {0}

-- On the sign and the magnitude of an int.
abbrev pub IsBetween : ℕ → ℕ → CInt → Type 0
IsBetween least most (negative, n) = (negative ≡ false) × (least ≤ n) × (n ≤ most)

abbrev pub IsUpTo : ℕ → CInt → Type 0
IsUpTo most (false, n) = n ≤ most
IsUpTo most (true, n) = n ≡ 0

abbrev pub IsPositive : CInt → Type 0
IsPositive (negative, n) = (negative ≡ false) × (0 < n)

-- Where it is asked for.
abbrev pub IfEnabled : Bool → Type 0 → Type 0
IfEnabled false required = Unit {0}
IfEnabled true required = required

module _ {Double : Type 0} (doubles : Doubles Double) where
  -- The station's own endpoint, and the callsign of the beacon if one is to run beside.
  abbrev pub HasEndpoint : CliArgs Double → Type 0
  HasEndpoint args =
      IsGiven args.device
      × IsGiven args.local_eid
      × IfEnabled args.beacon_enabled (IsGiven args.beacon_callsign)

  -- The requirements of each subcommand.
  abbrev pub HasRequired : CmdMode → CliArgs Double → Type 0
  HasRequired mode_none args = ⊥
  HasRequired mode_send args =
      IsGiven args.device × IsGiven args.src_call × IsGiven args.dst_call × IsGiven args.payload
  HasRequired mode_receive args = IsGiven args.device
  HasRequired mode_echo args = IsGiven args.device × IsGiven args.src_call × IsGiven args.dst_call
  HasRequired mode_ping args =
      IsGiven args.device
      × IsGiven args.src_call
      × IsGiven args.dst_call
      × IsPositive args.count
      × IsPositive args.timeout_ms
  HasRequired mode_ltp_send args = HasEndpoint args × IsGiven args.remote_eid × IsGiven args.payload
  HasRequired mode_ltp_recv args = HasEndpoint args
  HasRequired mode_beacon args = IsGiven args.device × IsGiven args.beacon_callsign
  HasRequired mode_bp_send args =
      HasEndpoint args × IsGiven args.remote_eid × (IsGiven args.payload ⊎ IsGiven args.file_path)
  HasRequired mode_bp_recv args = HasEndpoint args
  HasRequired mode_sdr_beacon args =
      IsGiven args.beacon_callsign
      × (doubles.out_of_band args.sdr_freq ≡ false)
      × IsUpTo 89 args.sdr_gain
      × IsBetween 10 3600 args.beacon_interval
  HasRequired mode_sdr_recv args =
      (doubles.out_of_band args.sdr_freq ≡ false) × IsUpTo 76 args.sdr_gain

  validate_mode_iff :
      (mode : CmdMode) (args : CliArgs Double)
      → (validate_mode doubles mode args ≡ some tt) ↔ HasRequired mode args
  unfolding validate_mode
  validate_mode_iff mode_none args = ground arith
  validate_mode_iff mode_send args = ground arith
  validate_mode_iff mode_receive args = ground arith
  validate_mode_iff mode_echo args = ground arith
  validate_mode_iff mode_ping args = ground arith
  validate_mode_iff mode_ltp_send args = ground arith
  validate_mode_iff mode_ltp_recv args = ground arith
  validate_mode_iff mode_beacon args = ground arith
  validate_mode_iff mode_bp_send args = ground arith
  validate_mode_iff mode_bp_recv args = ground arith
  validate_mode_iff mode_sdr_beacon args = ground arith
  validate_mode_iff mode_sdr_recv args = ground arith

  -- The arguments are accepted exactly if they have what their subcommand requires: the device for
  -- all but the two SDR commands; both callsigns for send, echo and ping; the payload for send and
  -- ltp-send, the payload or a file for bp-send; a positive count and timeout for ping; the local
  -- endpoint for the LTP and BP commands, the remote one for those that send; the callsign of a
  -- beacon where there is one; the frequency in the band, the gain and the interval in their
  -- ranges. Latitude and longitude are required of none.
  pub validate_args_iff :
      (args : CliArgs Double) → (validate_args doubles args ≡ some tt) ↔ HasRequired args.mode args
  unfolding validate_args
  validate_args_iff args = validate_mode_iff args.mode args

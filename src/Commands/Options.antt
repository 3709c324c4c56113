-- ===== src/Commands/Options.antt =====
-- The command line of kiss-interface/main.c: its defaults, subcommands and options, and what each
-- subcommand requires. What getopt_long finds is given: the options in order, each with its
-- argument, and the first argument behind them. Floating-point numbers are a parameter. An `int` is
-- its sign and its magnitude, as atoi gives it.
pub mod Parse
pub mod Validate
pub mod Required
use ion_dtn_terrestrial.Prelude.{
  ℕ, Bool, true, false, not, ◌&&◌, ◌||◌, ◌==◌, ltb, if◌then◌else◌, List, [], ◌∷◌, Option, none,
  some, ◌>>=◌, ◌>>◌, fail_if,
}
use ion_dtn_terrestrial.Prelude.Bits.{Bytes}
use ion_dtn_terrestrial.Ax25.{atoi}
use ion_dtn_terrestrial.Bp.Reassembly.{same_string}

pub data CmdMode : Type 0 where
  mode_none mode_send mode_receive mode_echo mode_ping mode_ltp_send mode_ltp_recv mode_beacon
        mode_bp_send mode_bp_recv mode_sdr_beacon mode_sdr_recv :
      CmdMode

-- The values of the enumeration, by which modes are compared.
abbrev pub mode_value : CmdMode → ℕ
mode_value mode_none = 0
mode_value mode_send = 1
mode_value mode_receive = 2
mode_value mode_echo = 3
mode_value mode_ping = 4
mode_value mode_ltp_send = 5
mode_value mode_ltp_recv = 6
mode_value mode_beacon = 7
mode_value mode_bp_send = 8
mode_value mode_bp_recv = 9
mode_value mode_sdr_beacon = 10
mode_value mode_sdr_recv = 11

abbrev pub is_mode : CmdMode → CmdMode → Bool
is_mode mode wanted = mode_value mode == mode_value wanted

abbrev pub CInt : Type 0
CInt = Bool × ℕ

abbrev pub int : ℕ → CInt
int n = (false, n)

-- What the code does with a `double`.
pub record Doubles (Double : Type 0) : Type 0 where
  pub strtod : Bytes → Double
  pub zero_degrees : Double
  pub default_freq : Double
  pub default_deviation : Double
  pub out_of_band : Double → Bool

-- A null pointer is `none`.
pub record CliArgs (Double : Type 0) : Type 0 where
  pub device : Option Bytes
  pub baud : CInt
  pub src_call : Option Bytes
  pub dst_call : Option Bytes
  pub payload : Option Bytes
  pub txdelay_ms : CInt
  pub txtail_ms : CInt
  pub delay_ms : CInt
  pub verbose : Bool
  pub count : CInt
  pub timeout_ms : CInt
  pub interval_ms : CInt
  pub local_eid : Option Bytes
  pub remote_eid : Option Bytes
  pub mtu : CInt
  pub owlt_ms : CInt
  pub retries : CInt
  pub beacon_callsign : Option Bytes
  pub beacon_lat : Double
  pub beacon_lon : Double
  pub beacon_comment : Option Bytes
  pub beacon_interval : CInt
  pub beacon_enabled : Bool
  pub file_path : Option Bytes
  pub outdir : Option Bytes
  pub lifetime_sec : CInt
  pub sdr_freq : Double
  pub sdr_gain : CInt
  pub sdr_sample_rate : CInt
  pub sdr_deviation : Double
  pub mode : CmdMode

-- What getopt_long returns, with `optarg`.
pub data CliOption : Type 0 where
  opt_device opt_src opt_dst opt_txdelay opt_txtail opt_delay opt_count opt_timeout opt_interval
        opt_local opt_remote opt_mtu opt_owlt opt_retries opt_callsign opt_lat opt_lon opt_comment
        opt_beacon_interval opt_file opt_outdir opt_lifetime opt_freq opt_gain opt_sample_rate
        opt_deviation :
      Bytes → CliOption
  opt_beacon opt_verbose opt_help opt_unknown : CliOption

-- 0 with the arguments, -1, and a call of exit() after the help.
pub data Parsed (Double : Type 0) : Type 0 where
  parsed : CliArgs Double → Parsed Double
  refused helped : Parsed Double

abbrev pub and_parse :
    {Double : Type 0} → Parsed Double → (CliArgs Double → Parsed Double) → Parsed Double
and_parse (parsed args) next = next args
and_parse refused next = refused
and_parse helped next = helped

-- `strcmp` against each name in turn.
abbrev send_name : Bytes
send_name = b's' ∷ b'e' ∷ b'n' ∷ b'd' ∷ []

abbrev recv_name : Bytes
recv_name = b'r' ∷ b'e' ∷ b'c' ∷ b'v' ∷ []

abbrev ltp_name : Bytes → Bytes
ltp_name rest = b'l' ∷ b't' ∷ b'p' ∷ b'-' ∷ rest

abbrev bp_name : Bytes → Bytes
bp_name rest = b'b' ∷ b'p' ∷ b'-' ∷ rest

abbrev sdr_name : Bytes → Bytes
sdr_name rest = b's' ∷ b'd' ∷ b'r' ∷ b'-' ∷ rest

abbrev beacon_name : Bytes
beacon_name = b'b' ∷ b'e' ∷ b'a' ∷ b'c' ∷ b'o' ∷ b'n' ∷ []

-- The names of the subcommands in the order of the tests.
abbrev pub mode_names : List (Bytes × CmdMode)
mode_names =
    (send_name, mode_send)
    ∷ (b'r' ∷ b'e' ∷ b'c' ∷ b'e' ∷ b'i' ∷ b'v' ∷ b'e' ∷ [], mode_receive)
    ∷ (b'e' ∷ b'c' ∷ b'h' ∷ b'o' ∷ [], mode_echo)
    ∷ (b'p' ∷ b'i' ∷ b'n' ∷ b'g' ∷ [], mode_ping)
    ∷ (ltp_name send_name, mode_ltp_send)
    ∷ (ltp_name recv_name, mode_ltp_recv)
    ∷ (beacon_name, mode_beacon)
    ∷ (bp_name send_name, mode_bp_send)
    ∷ (bp_name recv_name, mode_bp_recv)
    ∷ (sdr_name beacon_name, mode_sdr_beacon)
    ∷ (sdr_name recv_name, mode_sdr_recv)
    ∷ []

abbrev pub named_mode : List (Bytes × CmdMode) → Bytes → Option CmdMode
named_mode [] cmd = none
named_mode ((name, mode) ∷ names) cmd =
    if same_string cmd name then some mode else named_mode names cmd

abbrev pub help_name : Bytes
help_name = b'-' ∷ b'-' ∷ b'h' ∷ b'e' ∷ b'l' ∷ b'p' ∷ []

abbrev pub short_help_name : Bytes
short_help_name = b'-' ∷ b'h' ∷ []

-- ===== src/Commands/Options/Parse.antt =====
-- `parse_args` of kiss-interface/main.c.
use ion_dtn_terrestrial.Prelude.{
  true, false, ◌||◌, if◌then◌else◌, List, [], ◌∷◌, Option, none, some,
}
use ion_dtn_terrestrial.Prelude.Bits.{Bytes}
use ion_dtn_terrestrial.Ax25.{atoi}
use ion_dtn_terrestrial.Bp.Reassembly.{same_string}
use ion_dtn_terrestrial.Commands.Options.{
  CmdMode, is_mode, int, Doubles, CliArgs, CliOption, Parsed, and_parse, mode_names, named_mode,
  help_name, short_help_name, mode_none, mode_send, mode_ltp_send, mode_bp_send, opt_device,
  opt_src, opt_dst, opt_txdelay, opt_txtail, opt_delay, opt_count, opt_timeout, opt_interval,
  opt_local, opt_remote, opt_mtu, opt_owlt, opt_retries, opt_callsign, opt_lat, opt_lon,
  opt_comment, opt_beacon_interval, opt_file, opt_outdir, opt_lifetime, opt_freq, opt_gain,
  opt_sample_rate, opt_deviation, opt_beacon, opt_verbose, opt_help, opt_unknown, parsed, refused,
  helped,
}

module _ {Double : Type 0} (doubles : Doubles Double) where
  unfoldable pub default_args : CliArgs Double
  default_args = record {
    device = none;
    baud = int 9600;
    src_call = none;
    dst_call = none;
    payload = none;
    txdelay_ms = int 500;
    txtail_ms = int 300;
    delay_ms = int 1000;
    verbose = false;
    count = int 4;
    timeout_ms = int 5000;
    interval_ms = int 1000;
    local_eid = none;
    remote_eid = none;
    mtu = int 64;
    owlt_ms = int 30000;
    retries = int 7;
    beacon_callsign = none;
    beacon_lat = doubles.zero_degrees;
    beacon_lon = doubles.zero_degrees;
    beacon_comment = none;
    beacon_interval = int 120;
    beacon_enabled = false;
    file_path = none;
    outdir = none;
    lifetime_sec = int 3600;
    sdr_freq = doubles.default_freq;
    sdr_gain = int 50;
    sdr_sample_rate = int 480000;
    sdr_deviation = doubles.default_deviation;
    mode = mode_none;
  }

  -- The `switch` on one option.
  unfoldable pub apply_option : CliOption → CliArgs Double → Parsed Double
  unfolding atoi
  apply_option (opt_device optarg) args = parsed (record args { device = some optarg })
  apply_option (opt_src optarg) args = parsed (record args { src_call = some optarg })
  apply_option (opt_dst optarg) args = parsed (record args { dst_call = some optarg })
  apply_option (opt_txdelay optarg) args = parsed (record args { txdelay_ms = atoi optarg })
  apply_option (opt_txtail optarg) args = parsed (record args { txtail_ms = atoi optarg })
  apply_option (opt_delay optarg) args = parsed (record args { delay_ms = atoi optarg })
  apply_option (opt_count optarg) args = parsed (record args { count = atoi optarg })
  apply_option (opt_timeout optarg) args = parsed (record args { timeout_ms = atoi optarg })
  apply_option (opt_interval optarg) args = parsed (record args { interval_ms = atoi optarg })
  apply_option (opt_local optarg) args = parsed (record args { local_eid = some optarg })
  apply_option (opt_remote optarg) args = parsed (record args { remote_eid = some optarg })
  apply_option (opt_mtu optarg) args = parsed (record args { mtu = atoi optarg })
  apply_option (opt_owlt optarg) args = parsed (record args { owlt_ms = atoi optarg })
  apply_option (opt_retries optarg) args = parsed (record args { retries = atoi optarg })
  apply_option (opt_callsign optarg) args = parsed (record args { beacon_callsign = some optarg })
  apply_option (opt_lat optarg) args = parsed (record args { beacon_lat = doubles.strtod optarg })
  apply_option (opt_lon optarg) args = parsed (record args { beacon_lon = doubles.strtod optarg })
  apply_option (opt_comment optarg) args = parsed (record args { beacon_comment = some optarg })
  apply_option (opt_beacon_interval optarg) args =
      parsed (record args { beacon_interval = atoi optarg })
  apply_option opt_beacon args = parsed (record args { beacon_enabled = true })
  apply_option (opt_file optarg) args = parsed (record args { file_path = some optarg })
  apply_option (opt_outdir optarg) args = parsed (record args { outdir = some optarg })
  apply_option (opt_lifetime optarg) args = parsed (record args { lifetime_sec = atoi optarg })
  apply_option (opt_freq optarg) args = parsed (record args { sdr_freq = doubles.strtod optarg })
  apply_option (opt_gain optarg) args = parsed (record args { sdr_gain = atoi optarg })
  apply_option (opt_sample_rate optarg) args =
      parsed (record args { sdr_sample_rate = atoi optarg })
  apply_option (opt_deviation optarg) args =
      parsed (record args { sdr_deviation = doubles.strtod optarg })
  apply_option opt_verbose args = parsed (record args { verbose = true })
  apply_option opt_help args = helped
  apply_option opt_unknown args = refused

  unfoldable pub apply_options : List CliOption → CliArgs Double → Parsed Double
  unfolding apply_option
  apply_options [] args = parsed args
  apply_options (opt ∷ opts) args = and_parse (apply_option opt args) (apply_options opts)

  -- The argument behind the options, in three of the modes.
  unfoldable pub take_payload : Option Bytes → CliArgs Double → CliArgs Double
  take_payload none args = args
  take_payload (some arg) args =
      if is_mode args.mode mode_send
        || is_mode args.mode mode_ltp_send
        || is_mode args.mode mode_bp_send
      then record args { payload = some arg }
      else args

  unfoldable pub parse_options :
      Option CmdMode → List CliOption → Option Bytes → CliArgs Double → Parsed Double
  unfolding apply_options take_payload
  parse_options none opts rest args = refused
  parse_options (some mode) opts rest args =
      and_parse (apply_options opts (record args { mode = mode }))
        (λ chosen. parsed (take_payload rest chosen))

  -- `cmd` is argv[1].
  unfoldable pub parse_args : Option Bytes → List CliOption → Option Bytes → Parsed Double
  unfolding default_args parse_options
  parse_args none opts rest = parsed default_args
  parse_args (some cmd) opts rest =
      if same_string cmd help_name || same_string cmd short_help_name
      then helped
      else parse_options (named_mode mode_names cmd) opts rest default_args

-- ===== src/Beacon.antt =====
-- kiss-interface/beacon.c: the position beacon. Of a latitude or longitude, a double, the code
-- uses whether it is within its range and what snprintf prints for it, which is given here. A C
-- string is the list of its characters without the NUL.
pub mod Frame
pub mod Callsigns
pub mod Accepted
pub mod Runs
use ion_dtn_terrestrial.Prelude.{
  ℕ, zero, suc, ◌+◌, ◌-◌, ◌*◌, ◌/◌, ◌%◌, Bool, true, false, not, ◌&&◌, ◌||◌, ◌==◌, leb, ltb,
  if◌then◌else◌, [], ◌∷◌, ◌++◌, length, take, Option, none, some, ◌>>=◌, ◌>>◌, fail_if,
}
use ion_dtn_terrestrial.Prelude.Bits.{Bytes}
use ion_dtn_terrestrial.Kiss.{kiss_encode}
use ion_dtn_terrestrial.Ax25.{split_dash, ax25_build_frame}
use ion_dtn_terrestrial.Ltp.Engine.State.{Timespec}

abbrev pub beacon_max_comment : ℕ
beacon_max_comment = 128

abbrev pub beacon_max_position : ℕ
beacon_max_position = 256

abbrev pub beacon_tocall : Bytes
beacon_tocall = b'A' ∷ b'P' ∷ b'Z' ∷ b'0' ∷ b'0' ∷ b'1' ∷ []

abbrev pub beacon_min_interval : ℕ
beacon_min_interval = 10

abbrev pub beacon_max_interval : ℕ
beacon_max_interval = 3600

-- A latitude or longitude: whether it lies in its range, whether it is below 0, the whole degrees of
-- its magnitude, and the minutes that are left as "%.2f" rounds them, in hundredths. The double
-- itself, its comparison with the bounds and its rounding are given.
pub record Coordinate : Type 0 where
  pub in_range : Bool
  pub negative : Bool
  pub degrees : ℕ
  pub hundredths : ℕ

abbrev digit : ℕ → ℕ
digit n = b'0' + n % 10

-- "%02d" below 100 and "%03d" below 1000.
abbrev pub two_digits : ℕ → Bytes
two_digits n = digit (n / 10) ∷ digit n ∷ []

abbrev pub three_digits : ℕ → Bytes
three_digits n = digit (n / 100) ∷ two_digits n

-- `if (minutes >= 59.995) minutes = 59.99`: what is clamped is what would be printed as 60.00.
abbrev pub clamped : ℕ → ℕ
clamped hundredths = if leb 6000 hundredths then 5999 else hundredths

-- "%05.2f" below 100
abbrev pub minutes_text : ℕ → Bytes
minutes_text hundredths = two_digits (hundredths / 100) ++ (b'.' ∷ two_digits (hundredths % 100))

abbrev pub lat_text : Coordinate → Bytes
lat_text lat =
    let hemisphere = if lat.negative then b'S' else b'N' in
    two_digits lat.degrees ++ (minutes_text (clamped lat.hundredths) ++ (hemisphere ∷ []))

abbrev pub lon_text : Coordinate → Bytes
lon_text lon =
    let hemisphere = if lon.negative then b'W' else b'E' in
    three_digits lon.degrees ++ (minutes_text (clamped lon.hundredths) ++ (hemisphere ∷ []))

-- "%s" into an array of this size.
abbrev pub printed : Bytes → ℕ → Bytes
printed text out_size = take (out_size - 1) text

unfoldable pub beacon_format_lat : Coordinate → ℕ → Option Bytes
beacon_format_lat lat out_size = do
  fail_if (ltb out_size 9)
  fail_if (not lat.in_range)
  some (printed (lat_text lat) out_size)

unfoldable pub beacon_format_lon : Coordinate → ℕ → Option Bytes
beacon_format_lon lon out_size = do
  fail_if (ltb out_size 10)
  fail_if (not lon.in_range)
  some (printed (lon_text lon) out_size)

-- No comment is an empty one.
unfoldable pub beacon_build_position : Coordinate → Coordinate → Bytes → ℕ → Option Bytes
unfolding beacon_format_lat beacon_format_lon
beacon_build_position lat lon comment out_size = do
  fail_if (ltb out_size 21)
  lat_str ← beacon_format_lat lat 16
  lon_str ← beacon_format_lon lon 16
  let text = b'!' ∷ (lat_str ++ (b'/' ∷ (lon_str ++ (b'-' ∷ comment))))
  fail_if (leb out_size (length text))
  some text

abbrev is_alphanumeric : ℕ → Bool
is_alphanumeric c =
    (leb b'A' c && leb c b'Z') || ((leb b'a' c && leb c b'z') || (leb b'0' c && leb c b'9'))

unfoldable pub all_alphanumeric : Bytes → Bool
all_alphanumeric [] = true
all_alphanumeric (c ∷ s) = is_alphanumeric c && all_alphanumeric s

-- Every character is a digit and no prefix is above 15.
unfoldable pub ssid_digits : ℕ → Bytes → Bool
ssid_digits ssid [] = true
ssid_digits ssid (c ∷ s) =
    let next = ssid * 10 + (c - b'0') in
    let rest = ssid_digits next s in
    if ltb c b'0' || ltb b'9' c then false else if ltb 15 next then false else rest

unfoldable pub valid_ssid : Option Bytes → Bool
unfolding ssid_digits
valid_ssid none = true
valid_ssid (some []) = false
valid_ssid (some (c ∷ s)) = ssid_digits 0 (c ∷ s)

unfoldable pub valid_callsign : Bytes → Bool
unfolding split_dash all_alphanumeric valid_ssid
valid_callsign callsign =
    let base = (split_dash callsign).0 in
    not (length base == 0 || ltb 6 (length base))
    && (all_alphanumeric base && valid_ssid (split_dash callsign).1)

-- `lat` and `lon` are stored too, and never read.
pub record Beacon : Type 0 where
  pub callsign : Bytes
  pub comment : Bytes
  pub interval_sec : ℕ
  pub position_info : Bytes
  pub kiss_frame : Bytes
  pub last_tx : Timespec
  pub initialized : Bool

abbrev pub zeroed : Beacon
zeroed = record {
  callsign = [];
  comment = [];
  interval_sec = 0;
  position_info = [];
  kiss_frame = [];
  last_tx = record { tv_sec = 0; tv_nsec = 0 };
  initialized = false;
}

-- "Store configuration"
abbrev pub named : Bytes → Bytes → ℕ → Beacon
named callsign comment interval_sec = record zeroed {
  callsign = callsign;
  comment = printed comment beacon_max_comment;
  interval_sec = interval_sec;
}

-- The last steps, each of which may fail with what has been stored before.
unfoldable pub finish : Beacon → Option Bytes → Beacon × Bool
finish state none = (state, false)
finish state (some kiss_frame) =
    (record state { kiss_frame = kiss_frame; initialized = true }, true)

unfoldable pub frame_position : Beacon → Option Bytes → Beacon × Bool
unfolding finish
frame_position state none = (state, false)
frame_position state (some info) =
    finish (record state { position_info = info })
      (ax25_build_frame beacon_tocall state.callsign info 512 >>= λ ax25_frame.
        kiss_encode ax25_frame 600)

-- The Boolean says whether 0 is returned.
unfoldable pub beacon_init : Beacon → Bytes → Coordinate → Coordinate → Bytes → ℕ → Beacon × Bool
unfolding valid_callsign beacon_build_position frame_position
beacon_init state callsign lat lon comment interval_sec =
    if not (valid_callsign callsign)
    then (state, false)
    else if not lat.in_range || not lon.in_range
    then (state, false)
    else if ltb interval_sec beacon_min_interval || ltb beacon_max_interval interval_sec
    then (state, false)
    else if leb 10 (length callsign)
    then (zeroed, false)
    else frame_position (named callsign comment interval_sec)
        (beacon_build_position lat lon comment beacon_max_position)

-- `written` is what write() returns, with `none` for -1, and `now` what the clock shows then.
unfoldable pub beacon_transmit : Beacon → Option ℕ → Timespec → Beacon × Bool
beacon_transmit state none now = (state, false)
beacon_transmit state (some written) now =
    if not state.initialized
    then (state, false)
    else if not (written == length state.kiss_frame)
    then (state, false)
    else (record state { last_tx = now }, true)

abbrev pub time_ms : Timespec → ℕ
time_ms t = t.tv_sec * 1000 + t.tv_nsec / 1000000

-- `none` is -1. (The difference fits an int: the clock is monotonic and an interval has at most
-- 3600 seconds.)
unfoldable pub beacon_get_timeout_ms : Beacon → Timespec → Option ℕ
beacon_get_timeout_ms state now = do
  fail_if (not state.initialized)
  some (time_ms state.last_tx + state.interval_sec * 1000 - time_ms now)

unfoldable pub beacon_is_due : Beacon → Timespec → Option Bool
unfolding beacon_get_timeout_ms
beacon_is_due state now = do
  fail_if (not state.initialized)
  timeout ← beacon_get_timeout_ms state now
  some (timeout == 0)

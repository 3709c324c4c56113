-- ===== src/Aprs.antt =====
-- kiss-interface/aprs.c: which frames are taken for APRS packets, and the position in one. Minutes
-- and the position itself are floating-point numbers: of them, the code uses whether the minutes
-- are at least 0 and below 60, and what it prints, which are parameters.
mod Runs
pub mod Positions
use ion_dtn_terrestrial.Prelude.{
  ℕ, ◌+◌, ◌-◌, Bool, true, false, not, ◌&&◌, ◌||◌, ◌==◌, ltb, leb, if◌then◌else◌, [], ◌∷◌, length,
  take, drop, Option, none, some, ◌>>=◌, ◌>>◌, fail_if,
}
use ion_dtn_terrestrial.Prelude.Bits.{Bytes}
use ion_dtn_terrestrial.Ax25.{atoi, ssid_byte}

-- `s[i]`, where the array is longer.
abbrev pub char_at : ℕ → Bytes → ℕ
char_at i s = ssid_byte (drop i s)

unfoldable pub aprs_is_ax25_frame : Bytes → Bool
aprs_is_ax25_frame payload =
    if ltb (length payload) 16
    then false
    else if not (char_at 14 payload == 0x03)
    then false
    else if not (char_at 15 payload == 0xF0)
    then false
    else true

abbrev pub comment_size : ℕ
comment_size = 128

-- `deg < 0 || deg > most`
abbrev out_of_degrees : Bool × ℕ → ℕ → Bool
out_of_degrees (negative, deg) most = (negative && ltb 0 deg) || (not negative && ltb most deg)

-- With `rem` characters from the latitude on.
abbrev pub comment_len : ℕ → ℕ
comment_len rem = if leb comment_size (rem - 19) then comment_size - 1 else rem - 19

-- `good_minutes` says of five characters whether atof gives a number in [0, 60) for them, and
-- `decimal_degrees` is the number that comes of the degrees, the minutes and the sign.
module _ {Double : Type 0} (good_minutes : Bytes → Bool)
    (decimal_degrees : ℕ → Bytes → Bool → Double) where
  unfoldable pub parse_lat : Bytes → Option Double
  unfolding atoi
  parse_lat s = do
    let hem = char_at 7 s
    fail_if (not (hem == b'N') && not (hem == b'S'))
    let deg = atoi (take 2 s)
    let minutes = take 5 (drop 2 s)
    fail_if (out_of_degrees deg 90 || not (good_minutes minutes))
    some (decimal_degrees deg.1 minutes (hem == b'S'))

  unfoldable pub parse_lon : Bytes → Option Double
  unfolding atoi
  parse_lon s = do
    let hem = char_at 8 s
    fail_if (not (hem == b'E') && not (hem == b'W'))
    let deg = atoi (take 3 s)
    let minutes = take 5 (drop 3 s)
    fail_if (out_of_degrees deg 180 || not (good_minutes minutes))
    some (decimal_degrees deg.1 minutes (hem == b'W'))

  pub record Position : Type 0 where
    pub lat : Double
    pub lon : Double
    pub symbol_table : ℕ
    pub symbol_code : ℕ
    pub comment : Bytes

  -- What a failure has stored before is not read. `has_position` is set on success.
  unfoldable pub parse_uncompressed : Bytes → Option Position
  unfolding parse_lat parse_lon
  parse_uncompressed p = do
    fail_if (ltb (length p) 19)
    lat ← parse_lat p
    lon ← parse_lon (drop 9 p)
    some (record {
      lat = lat;
      lon = lon;
      symbol_table = char_at 8 p;
      symbol_code = char_at 18 p;
      comment = take (comment_len (length p)) (drop 19 p);
    })

  unfoldable pub aprs_decode_position : Bytes → Option Position
  unfolding parse_uncompressed
  aprs_decode_position [] = none
  aprs_decode_position (dtype ∷ info) =
      let plain = parse_uncompressed info in
      let timed : Option Position = (do
        fail_if (ltb (length info) 7)
        parse_uncompressed (drop 7 info)) in
      if dtype == b'!' || dtype == b'='
      then plain
      else if dtype == b'/' || dtype == b'@'
      then timed
      else none

-- ===== src/Aprs/Runs.antt =====
-- Runs of aprs.c at concrete inputs.
use ion_dtn_terrestrial.Prelude.{
  ℕ, ◌+◌, ◌*◌, Bool, [], ◌∷◌, ◌++◌, none, some, true, false, ◌≡◌, refl, arith, ltb, take,
}
use ion_dtn_terrestrial.Prelude.Bits.{Bytes}
use ion_dtn_terrestrial.Ax25.{atoi}
use ion_dtn_terrestrial.Ax25.Runs.{frame_of}
use ion_dtn_terrestrial.Beacon.{lat_text, lon_text, beacon_build_position}
use ion_dtn_terrestrial.Beacon.Runs.{lat, lon}
use ion_dtn_terrestrial.Aprs.{aprs_is_ax25_frame, aprs_decode_position}
use ion_dtn_terrestrial.Aprs.Positions.{ReadsMinutes, decode-build_position}

-- Whole minutes, and the angle in minutes with its sign.
abbrev below_sixty : Bytes → Bool
unfolding atoi
below_sixty minutes = ltb (atoi (take 2 minutes)).1 60

abbrev in_minutes : ℕ → Bytes → Bool → Bool × ℕ
unfolding atoi
in_minutes deg minutes negative = (negative, deg * 60 + (atoi (take 2 minutes)).1)

below_sixty-reads : ReadsMinutes below_sixty
unfolding atoi
below_sixty-reads n h = ground arith

abbrev hello : Bytes
hello = b'h' ∷ b'e' ∷ b'l' ∷ b'l' ∷ b'o' ∷ []

abbrev position_text : Bytes
position_text = b'!' ∷ (lat_text lat ++ (b'/' ∷ (lon_text lon ++ (b'-' ∷ hello))))

position_built : beacon_build_position lat lon hello 256 ≡ some position_text
unfolding beacon_build_position
position_built = refl

decode-build_position_example :
    aprs_decode_position below_sixty in_minutes position_text
    ≡ some (record {
      lat = (false, 3060);
      lon = (true, 59);
      symbol_table = b'/';
      symbol_code = b'-';
      comment = hello;
    })
unfolding atoi
decode-build_position_example =
    decode-build_position below_sixty in_minutes lat lon hello position_text 256 below_sixty-reads
      (omega arith) (omega arith) position_built

-- A hemisphere that is neither north nor south, and a text that ends too early.
no_hemisphere :
    aprs_decode_position below_sixty in_minutes (b'!' ∷ (lon_text lon ++ (lat_text lat ++ hello)))
    ≡ none
unfolding aprs_decode_position
no_hemisphere = refl

too_short : aprs_decode_position below_sixty in_minutes (b'/' ∷ hello) ≡ none
unfolding aprs_decode_position
too_short = refl

ax25_frame : aprs_is_ax25_frame frame_of ≡ true
unfolding aprs_is_ax25_frame
ax25_frame = refl

-- ===== src/Aprs/Positions.antt =====
-- The position that beacon.c builds, as aprs.c of another station decodes it.
use ion_dtn_terrestrial.Prelude.{
  ℕ, zero, suc, ◌+◌, ◌-◌, ◌≤◌, ◌<◌, leb, ltb, Bool, true, false, not, [], ◌∷◌, ◌++◌, length,
  length-append, length-drop, le→ltb, take, drop, some, >>=-eq-some, fail_if, ◌≡◌, ◌∙◌, refl, sym,
  ap, arith, Bool-cases, inl, inr,
}
use ion_dtn_terrestrial.Prelude.Bits.{Bytes}
use ion_dtn_terrestrial.Ax25.{atoi, ssid_byte}
use ion_dtn_terrestrial.Ax25.Frame.{drop_past}
use ion_dtn_terrestrial.Beacon.{
  Coordinate, two_digits, three_digits, clamped, minutes_text, lat_text, lon_text,
  beacon_build_position, beacon_format_lat, beacon_format_lon,
}
use ion_dtn_terrestrial.Aprs.{
  char_at, comment_size, comment_len, parse_lat, parse_lon, parse_uncompressed,
  aprs_decode_position,
}

take-within : (n : ℕ) (s rest : Bytes) → n ≤ length s → take n (s ++ rest) ≡ take n s
take-within zero s rest h = refl
take-within (suc n) [] rest h = absurd (omega arith)
take-within (suc n) (c ∷ s) rest h = ap (c ∷◌) (take-within n s rest (omega arith))

drop-within : (n : ℕ) (s rest : Bytes) → n ≤ length s → drop n (s ++ rest) ≡ drop n s ++ rest
drop-within zero s rest h = refl
drop-within (suc n) [] rest h = absurd (omega arith)
drop-within (suc n) (c ∷ s) rest h = drop-within n s rest (omega arith)

take_whole : (n : ℕ) (s : Bytes) → length s ≤ n → take n s ≡ s
take_whole zero [] h = refl
take_whole zero (c ∷ s) h = absurd (omega arith)
take_whole (suc n) [] h = refl
take_whole (suc n) (c ∷ s) h = ap (c ∷◌) (take_whole n s (omega arith))

ssid_byte-append : (s rest : Bytes) → 0 < length s → ssid_byte (s ++ rest) ≡ ssid_byte s
ssid_byte-append [] rest h = absurd (omega arith)
ssid_byte-append (c ∷ s) rest h = refl

char_at-within : (n : ℕ) (s rest : Bytes) → n < length s → char_at n (s ++ rest) ≡ char_at n s
char_at-within n s rest h =
    ap ssid_byte (drop-within n s rest (omega arith))
    ∙ ssid_byte-append (drop n s) rest (omega (arith, length-drop n s))

chars-within :
    (m n : ℕ) (s rest : Bytes) → m + n ≤ length s → take n (drop m (s ++ rest)) ≡ take n (drop m s)
chars-within m n s rest h =
    ap (take n) (drop-within m s rest (omega arith))
    ∙ take-within n (drop m s) rest (omega (arith, length-drop m s))

shortened : (s : Bytes) → take (comment_len (19 + length s)) s ≡ take 127 s
shortened s =
    let behind : 19 + length s - 19 ≡ length s = omega arith in
    rw behind (elim (Bool-cases (leb comment_size (length s))) [
      | inl long ↦ rw long refl
      | inr short ↦
          rw short
            (take_whole (length s) s (omega arith) ∙ sym (take_whole 127 s (ground (arith, short))))
    ])

atoi-two_digits : (n : ℕ) → n ≤ 90 → atoi (two_digits n) ≡ (false, n)
unfolding atoi
atoi-two_digits n near = ground arith

atoi-three_digits : (n : ℕ) → n ≤ 180 → atoi (three_digits n) ≡ (false, n)
unfolding atoi
atoi-three_digits n near = ground arith

-- Five characters NN.NN with a number below 60 are good minutes.
abbrev pub ReadsMinutes : (Bytes → Bool) → Type 0
ReadsMinutes good_minutes = (n : ℕ) → n < 6000 → good_minutes (minutes_text n) ≡ true

module _ {Double : Type 0} (good_minutes : Bytes → Bool)
    (decimal_degrees : ℕ → Bytes → Bool → Double) where
  parse_lat-append :
      (s rest : Bytes)
      → length s ≡ 8
      → parse_lat good_minutes decimal_degrees (s ++ rest)
        ≡ parse_lat good_minutes decimal_degrees s
  unfolding parse_lat
  parse_lat-append s rest h =
      rw
        (
          char_at-within 7 s rest (omega arith),
          take-within 2 s rest (omega arith),
          chars-within 2 5 s rest (omega arith),
        )
        refl

  parse_lon-append :
      (s rest : Bytes)
      → length s ≡ 9
      → parse_lon good_minutes decimal_degrees (s ++ rest)
        ≡ parse_lon good_minutes decimal_degrees s
  unfolding parse_lon
  parse_lon-append s rest h =
      rw
        (
          char_at-within 8 s rest (omega arith),
          take-within 3 s rest (omega arith),
          chars-within 3 5 s rest (omega arith),
        )
        refl

  -- A latitude of eight characters and a longitude of nine that are decoded, in the text of a
  -- position, come back with the symbols and with up to 127 characters of the comment.
  decode_position-text :
      (lat_str lon_str comment : Bytes) {x y : Double}
      → length lat_str ≡ 8
      → length lon_str ≡ 9
      → parse_lat good_minutes decimal_degrees lat_str ≡ some x
      → parse_lon good_minutes decimal_degrees lon_str ≡ some y
      → aprs_decode_position good_minutes decimal_degrees
          (b'!' ∷ (lat_str ++ (b'/' ∷ (lon_str ++ (b'-' ∷ comment)))))
        ≡ some (record {
          lat = x;
          lon = y;
          symbol_table = b'/';
          symbol_code = b'-';
          comment = take 127 comment;
        })
  unfolding aprs_decode_position parse_uncompressed
  decode_position-text lat_str lon_str comment eight nine north east =
      let behind = lon_str ++ (b'-' ∷ comment) in
      let sized : length (lat_str ++ (b'/' ∷ behind)) ≡ 19 + length comment =
        omega
          (arith, length-append lat_str (b'/' ∷ behind), length-append lon_str (b'-' ∷ comment)) in
      let enough = le→ltb (19 + length comment) 19 (omega arith) in
      rw
        (
          sized,
          enough,
          parse_lat-append lat_str (b'/' ∷ behind) eight ∙ north,
          drop_past lat_str (b'/' ∷ behind) 9 1 (omega arith),
          parse_lon-append lon_str (b'-' ∷ comment) nine ∙ east,
          drop_past lat_str (b'/' ∷ behind) 8 0 (omega arith),
          drop_past lat_str (b'/' ∷ behind) 18 10 (omega arith),
          drop_past lon_str (b'-' ∷ comment) 9 0 (omega arith),
          drop_past lat_str (b'/' ∷ behind) 19 11 (omega arith),
          drop_past lon_str (b'-' ∷ comment) 10 1 (omega arith),
          shortened comment,
        )
        refl

  built_text :
      (lat lon : Coordinate) (comment info : Bytes) (size : ℕ)
      → beacon_build_position lat lon comment size ≡ some info
      → info ≡ b'!' ∷ (lat_text lat ++ (b'/' ∷ (lon_text lon ++ (b'-' ∷ comment))))
  unfolding beacon_build_position beacon_format_lat beacon_format_lon
  built_text lat lon comment info size e =
      let (u, room, e1) = >>=-eq-some (fail_if (ltb size 21)) _ e in
      let (lat_str, north, e2) = >>=-eq-some (beacon_format_lat lat 16) _ e1 in
      let (lon_str, east, e3) = >>=-eq-some (beacon_format_lon lon 16) _ e2 in
      let (v, fits, e4) = >>=-eq-some (fail_if (leb size _)) _ e3 in
      let (w, in_lat, e5) = >>=-eq-some (fail_if (not lat.in_range)) _ north in
      let (z, in_lon, e6) = >>=-eq-some (fail_if (not lon.in_range)) _ east in
      let lat_whole = take_whole 15 (lat_text lat) (omega arith) in
      let lon_whole = take_whole 15 (lon_text lon) (omega arith) in cc

  clamped_minutes :
      (n : ℕ) → ReadsMinutes good_minutes → good_minutes (minutes_text (clamped n)) ≡ true
  clamped_minutes n reads = reads (clamped n) (ground arith)

  parse_lat-text :
      (lat : Coordinate)
      → ReadsMinutes good_minutes
      → lat.degrees ≤ 90
      → parse_lat good_minutes decimal_degrees (lat_text lat)
        ≡ some (decimal_degrees lat.degrees (minutes_text (clamped lat.hundredths)) lat.negative)
  unfolding parse_lat
  parse_lat-text lat reads near = elim (Bool-cases lat.negative) [
    | inl south ↦
        rw
          (
            south,
            atoi-two_digits lat.degrees near,
            clamped_minutes lat.hundredths reads,
            le→ltb 90 lat.degrees near,
          )
          refl
    | inr north ↦
        rw
          (
            north,
            atoi-two_digits lat.degrees near,
            clamped_minutes lat.hundredths reads,
            le→ltb 90 lat.degrees near,
          )
          refl
  ]

  parse_lon-text :
      (lon : Coordinate)
      → ReadsMinutes good_minutes
      → lon.degrees ≤ 180
      → parse_lon good_minutes decimal_degrees (lon_text lon)
        ≡ some (decimal_degrees lon.degrees (minutes_text (clamped lon.hundredths)) lon.negative)
  unfolding parse_lon
  parse_lon-text lon reads near = elim (Bool-cases lon.negative) [
    | inl west ↦
        rw
          (
            west,
            atoi-three_digits lon.degrees near,
            clamped_minutes lon.hundredths reads,
            le→ltb 180 lon.degrees near,
          )
          refl
    | inr east ↦
        rw
          (
            east,
            atoi-three_digits lon.degrees near,
            clamped_minutes lon.hundredths reads,
            le→ltb 180 lon.degrees near,
          )
          refl
  ]

  -- A position that a beacon builds at up to 90 degrees of latitude and 180 of longitude is decoded
  -- by another station to the degrees, the minutes in hundredths (59.99 at most) and the
  -- hemispheres of both, to the symbols / and -, and to the first 127 characters of the comment, if
  -- atof reads minutes below 60 from five characters NN.NN.
  pub decode-build_position :
      (lat lon : Coordinate) (comment info : Bytes) (size : ℕ)
      → ReadsMinutes good_minutes
      → lat.degrees ≤ 90
      → lon.degrees ≤ 180
      → beacon_build_position lat lon comment size ≡ some info
      → aprs_decode_position good_minutes decimal_degrees info
        ≡ some (record {
          lat = decimal_degrees lat.degrees (minutes_text (clamped lat.hundredths)) lat.negative;
          lon = decimal_degrees lon.degrees (minutes_text (clamped lon.hundredths)) lon.negative;
          symbol_table = b'/';
          symbol_code = b'-';
          comment = take 127 comment;
        })
  decode-build_position lat lon comment info size reads near_lat near_lon e =
      ap (aprs_decode_position good_minutes decimal_degrees)
        (built_text lat lon comment info size e)
      ∙ decode_position-text (lat_text lat) (lon_text lon) comment refl refl
          (parse_lat-text lat reads near_lat) (parse_lon-text lon reads near_lon)

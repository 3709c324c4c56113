-- ===== src/Beacon/Callsigns.antt =====
-- The callsigns that beacon_init of beacon.c accepts, as ax25_encode_addr of ax25.c takes them.
use ion_dtn_terrestrial.Prelude.{
  ℕ, ◌+◌, ◌-◌, ◌*◌, ◌<◌, ltb, true, false, [], ◌∷◌, some, ◌≡◌, refl, arith, Option, none, All,
}
use ion_dtn_terrestrial.Prelude.Bits.{Bytes}
use ion_dtn_terrestrial.Ax25.{
  digits_value, atoi, split_dash, parse_ssid, is_space, skip_spaces, atoi_signed,
}
use ion_dtn_terrestrial.Ax25.Callsign.{IsCallsign, IsGraphic, base}
use ion_dtn_terrestrial.Beacon.{all_alphanumeric, ssid_digits, valid_ssid, valid_callsign}

all_alphanumeric-IsGraphic : (s : Bytes) → all_alphanumeric s ≡ true → All IsGraphic s
unfolding all_alphanumeric
all_alphanumeric-IsGraphic [] h = tt
all_alphanumeric-IsGraphic (c ∷ s) h = (ground arith, all_alphanumeric-IsGraphic s (ground arith))

digits_value_bounds :
    (acc : ℕ) (s : Bytes) → acc < 16 → ssid_digits acc s ≡ true → digits_value acc s < 16
unfolding ssid_digits digits_value
digits_value_bounds acc [] h e = h
digits_value_bounds acc (c ∷ s) h e = ground (arith, digits_value_bounds (acc * 10 + (c - b'0')) s)

atoi-digits :
    (c : ℕ) (s : Bytes)
    → ssid_digits 0 (c ∷ s) ≡ true
    → atoi (c ∷ s) ≡ (false, digits_value 0 (c ∷ s))
unfolding atoi atoi_signed skip_spaces is_space ssid_digits
atoi-digits c s h = ground arith

valid-parse_ssid :
    (text : Option Bytes) → valid_ssid text ≡ true → (ssid : ℕ) × (parse_ssid text ≡ some ssid)
unfolding valid_ssid parse_ssid
valid-parse_ssid none h = (0, refl)
valid-parse_ssid (some []) h = cc
valid-parse_ssid (some (c ∷ s)) h =
    let small : ltb 15 (digits_value 0 (c ∷ s)) ≡ false =
      ground (arith, digits_value_bounds 0 (c ∷ s) (omega arith) h) in
    (digits_value 0 (c ∷ s), rw (atoi-digits c s h, small) refl)

-- Every callsign that beacon_init accepts is one that ax25_encode_addr encodes and that comes back
-- from its address, with a number below 16.
pub valid_callsign-IsCallsign :
    (callsign : Bytes) → valid_callsign callsign ≡ true → (ssid : ℕ) × IsCallsign callsign ssid
unfolding valid_callsign
valid_callsign-IsCallsign callsign h =
    let tested : (all_alphanumeric (base callsign) ≡ true)
        × (valid_ssid (split_dash callsign).1 ≡ true) =
      ground arith in
    let (ssid, numbered) = valid-parse_ssid (split_dash callsign).1 tested.1 in
    (
      ssid,
      record {
        some_letters = ground arith;
        at_most_six = ground arith;
        graphic = all_alphanumeric-IsGraphic (base callsign) tested.0;
        numbered = numbered;
      },
    )

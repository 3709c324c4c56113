-- ===== src/Ax25/Runs.antt =====
-- Runs of ax25.c at concrete inputs.
use ion_dtn_terrestrial.Prelude.{[], ◌∷◌, ◌++◌, some, none, true, false, ◌≡◌, refl, arith}
use ion_dtn_terrestrial.Prelude.Bits.{Bytes}
use ion_dtn_terrestrial.Ax25.Callsign.{IsCallsign, shown}
use ion_dtn_terrestrial.Ax25.Exchange.{strip-build_callsigns}
use ion_dtn_terrestrial.Ax25.{
  split_dash, parse_ssid, atoi, toupper, ax25_encode_addr, ax25_build_frame, ax25_strip_frame,
}

abbrev pub g4dpz_1 : Bytes
g4dpz_1 = b'g' ∷ b'4' ∷ b'D' ∷ b'P' ∷ b'Z' ∷ b'-' ∷ b'1' ∷ []

abbrev pub m0abc : Bytes
m0abc = b'M' ∷ b'0' ∷ b'A' ∷ b'B' ∷ b'C' ∷ []

encode_g4dpz_1 :
    ax25_encode_addr g4dpz_1 true ≡ some (0x8E ∷ 0x68 ∷ 0x88 ∷ 0xA0 ∷ 0xB4 ∷ 0x40 ∷ 0x63 ∷ [])
unfolding ax25_encode_addr
encode_g4dpz_1 = refl

encode_ssid_16 : ax25_encode_addr (m0abc ++ (b'-' ∷ b'1' ∷ b'6' ∷ [])) false ≡ none
unfolding ax25_encode_addr
encode_ssid_16 = refl

abbrev pub frame_of : Bytes
frame_of =
    0x9A ∷ 0x60 ∷ 0x82 ∷ 0x84 ∷ 0x86 ∷ 0x40 ∷ 0x60 ∷ 0x8E ∷ 0x68 ∷ 0x88 ∷ 0xA0 ∷ 0xB4 ∷ 0x40 ∷ 0x63
    ∷ 0x03 ∷ 0xF0 ∷ 1 ∷ 2 ∷ []

build_frame : ax25_build_frame m0abc g4dpz_1 (1 ∷ 2 ∷ []) 18 ≡ some frame_of
unfolding ax25_build_frame
build_frame = refl

strip_frame :
    ax25_strip_frame frame_of
    ≡ some (
      b'G' ∷ b'4' ∷ b'D' ∷ b'P' ∷ b'Z' ∷ b'-' ∷ b'1' ∷ [],
      b'M' ∷ b'0' ∷ b'A' ∷ b'B' ∷ b'C' ∷ b'-' ∷ b'0' ∷ [],
      1 ∷ 2 ∷ [],
    )
unfolding ax25_strip_frame
strip_frame = refl

pub g4dpz_1-IsCallsign : IsCallsign g4dpz_1 1
unfolding split_dash parse_ssid atoi
g4dpz_1-IsCallsign = record {
  some_letters = omega arith;
  at_most_six = omega arith;
  graphic = ground arith;
  numbered = refl;
}

pub m0abc-IsCallsign : IsCallsign m0abc 0
unfolding split_dash parse_ssid
m0abc-IsCallsign = record {
  some_letters = omega arith;
  at_most_six = omega arith;
  graphic = ground arith;
  numbered = refl;
}

strip-build_callsigns_example :
    (frame : Bytes) × (ax25_build_frame m0abc g4dpz_1 (1 ∷ 2 ∷ []) 18 ≡ some frame)
    × (ax25_strip_frame frame ≡ some (shown g4dpz_1 1, shown m0abc 0, 1 ∷ 2 ∷ []))
strip-build_callsigns_example =
    strip-build_callsigns (1 ∷ 2 ∷ []) 18 m0abc-IsCallsign g4dpz_1-IsCallsign (omega arith)
      (omega arith)

text_of_g4dpz_1 : shown g4dpz_1 1 ≡ b'G' ∷ b'4' ∷ b'D' ∷ b'P' ∷ b'Z' ∷ b'-' ∷ b'1' ∷ []
unfolding split_dash toupper
text_of_g4dpz_1 = refl

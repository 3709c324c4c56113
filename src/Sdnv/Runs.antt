-- ===== src/Sdnv/Runs.antt =====
-- Runs of sdnv.c at concrete inputs, and its theorems applied at them.
use ion_dtn_terrestrial.Prelude.{
  ◌≤◌, ltb, if◌then◌else◌, [], ◌∷◌, ◌++◌, length, none, some, ◌≡◌, refl, arith, All,
}
use ion_dtn_terrestrial.Prelude.Bits.{Bytes, IsByte}
use ion_dtn_terrestrial.Sdnv.{int64_max, sdnv_encode, sdnv_decode}
use ion_dtn_terrestrial.Sdnv.Encode.{encoding, sdnv_encode_total, sdnv_encode-encoding}
use ion_dtn_terrestrial.Sdnv.Decode.{sdnv_decode-encode}

encode_300 : sdnv_encode 300 2 ≡ some (0x82 ∷ 0x2c ∷ [])
unfolding sdnv_encode
encode_300 = refl

encode_no_room : sdnv_encode 300 1 ≡ none
unfolding sdnv_encode
encode_no_room = refl

decode_300 : sdnv_decode (0x82 ∷ 0x2c ∷ 7 ∷ []) ≡ some (300, 2)
unfolding sdnv_decode
decode_300 = refl

decode_cut : sdnv_decode (0x82 ∷ []) ≡ none
unfolding sdnv_decode
decode_cut = refl

abbrev two_to_63 : Bytes
two_to_63 = 0x81 ∷ 0x80 ∷ 0x80 ∷ 0x80 ∷ 0x80 ∷ 0x80 ∷ 0x80 ∷ 0x80 ∷ 0x80 ∷ 0x00 ∷ []

encode_two_to_63 : sdnv_encode 0x8000_0000_0000_0000 10 ≡ some two_to_63
unfolding sdnv_encode
encode_two_to_63 = refl

sdnv_encode-encoding_example :
    sdnv_encode 300 1 ≡ (if ltb 1 (length (encoding 300)) then none else some (encoding 300))
sdnv_encode-encoding_example = sdnv_encode-encoding 300 1 (omega arith)

sdnv_encode_total_example :
    (bytes : Bytes) × (sdnv_encode 300 10 ≡ some bytes)
    × (1 ≤ length bytes)
    × (length bytes ≤ 10)
    × All IsByte bytes
sdnv_encode_total_example = sdnv_encode_total 300 10 (omega arith) (omega arith)

-- A value that the decoder refuses.
sdnv_decode-encode_example :
    sdnv_decode (two_to_63 ++ [])
    ≡ (if ltb int64_max 0x8000_0000_0000_0000 then none else some (0x8000_0000_0000_0000, 10))
sdnv_decode-encode_example =
    sdnv_decode-encode 0x8000_0000_0000_0000 10 [] (omega arith) encode_two_to_63

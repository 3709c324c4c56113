-- ===== src/Cbor/Runs.antt =====
-- Runs of kiss-interface/cbor.c at concrete inputs, and its theorems applied at them.
use ion_dtn_terrestrial.Prelude.{◌≤◌, [], ◌∷◌, none, some, ◌≡◌, refl, arith}
use ion_dtn_terrestrial.Cbor.{cbor_encode_uint, cbor_decode_array, Slice, decode_string}
use ion_dtn_terrestrial.Cbor.Items.{decode_string_inside}

encode_1000000 : cbor_encode_uint 1000000 5 ≡ some (0x1A ∷ 0x00 ∷ 0x0F ∷ 0x42 ∷ 0x40 ∷ [])
unfolding cbor_encode_uint
encode_1000000 = refl

encode_no_room : cbor_encode_uint 1000000 4 ≡ none
unfolding cbor_encode_uint
encode_no_room = refl

-- A negative number is no array.
decode_no_array : cbor_decode_array (0x20 ∷ []) ≡ none
unfolding cbor_decode_array
decode_no_array = refl

abbrev three : Slice
three = record { bytes = 1 ∷ 2 ∷ 3 ∷ 9 ∷ []; len = 3 }

read_three : decode_string 2 (0x43 ∷ 1 ∷ 2 ∷ 3 ∷ 9 ∷ []) ≡ some (three, 4)
unfolding decode_string
read_three = refl

decode_string_inside_example : (4 ≤ 5) × (3 ≤ 4)
decode_string_inside_example =
    decode_string_inside 2 (0x43 ∷ 1 ∷ 2 ∷ 3 ∷ 9 ∷ []) three 4 read_three (omega arith)

-- ===== src/Cbor.antt =====
-- kiss-interface/cbor.c: heads of data items, numbers, strings and arrays. An encoder is given the size
-- of the buffer, a decoder the bytes of it; a decoder gives the number of bytes that it read.
pub mod Head
pub mod Items
mod Runs
use ion_dtn_terrestrial.Prelude.{
  ℕ, zero, suc, ◌+◌, ◌*◌, ◌%◌, ◌/◌, ◌^◌, Bool, true, false, ◌==◌, leb, ltb, not, if◌then◌else◌, [],
  ◌∷◌, ◌++◌, length, drop, Option, none, some, ◌>>=◌, ◌>>◌, fail_if, bit_or,
}
use ion_dtn_terrestrial.Prelude.Bits.{Bytes, low_bits, shr}

-- `(uint8_t)(arg >> k)`
abbrev pub byte_at_bit : ℕ → ℕ → ℕ
byte_at_bit arg k = low_bits (shr arg k) 8

abbrev pub bytes2 : ℕ → Bytes
bytes2 arg = byte_at_bit arg 8 ∷ byte_at_bit arg 0 ∷ []

abbrev pub bytes4 : ℕ → Bytes
bytes4 arg = byte_at_bit arg 24 ∷ byte_at_bit arg 16 ∷ bytes2 arg

abbrev pub bytes8 : ℕ → Bytes
bytes8 arg =
    byte_at_bit arg 56 ∷ byte_at_bit arg 48 ∷ byte_at_bit arg 40 ∷ byte_at_bit arg 32 ∷ bytes4 arg

-- `if (out_size < size) return -1;`, and then the bytes.
abbrev pub room_for : ℕ → Bytes → ℕ → Option Bytes
room_for size bytes out_size = do fail_if (ltb out_size size); some bytes

-- `(uint8_t)(major << 5)`
abbrev pub major_bits : ℕ → ℕ
major_bits major = major * 2 ^ 5 % 256

unfoldable pub cbor_encode_head : ℕ → ℕ → ℕ → Option Bytes
cbor_encode_head major arg out_size =
    let mt = major_bits major in
    if leb arg 23
    then room_for 1 (bit_or mt arg ∷ []) out_size
    else if leb arg 0xFF
    then room_for 2 (bit_or mt 24 ∷ byte_at_bit arg 0 ∷ []) out_size
    else if leb arg 0xFFFF
    then room_for 3 (bit_or mt 25 ∷ bytes2 arg) out_size
    else if leb arg 0xFFFF_FFFF
    then room_for 5 (bit_or mt 26 ∷ bytes4 arg) out_size
    else room_for 9 (bit_or mt 27 ∷ bytes8 arg) out_size

-- The argument in the bytes behind the first one: 2, 4 or 8 of them.
abbrev pub value2 : Bytes → Option ℕ
value2 (a ∷ b ∷ rest) = some (bit_or (a * 2 ^ 8) b)
value2 _ = none

abbrev pub value4 : Bytes → Option ℕ
value4 (a ∷ b ∷ c ∷ d ∷ rest) =
    some (bit_or (bit_or (bit_or (a * 2 ^ 24) (b * 2 ^ 16)) (c * 2 ^ 8)) d)
value4 _ = none

abbrev pub value8 : Bytes → Option ℕ
value8 (a ∷ b ∷ c ∷ d ∷ e ∷ f ∷ g ∷ h ∷ rest) = some (
    bit_or
      (bit_or
        (bit_or
          (bit_or (bit_or (bit_or (bit_or (a * 2 ^ 56) (b * 2 ^ 48)) (c * 2 ^ 40)) (d * 2 ^ 32))
            (e * 2 ^ 24))
          (f * 2 ^ 16))
        (g * 2 ^ 8))
      h)
value8 _ = none

abbrev pub value1 : Bytes → Option ℕ
value1 (a ∷ rest) = some a
value1 [] = none

-- A decoded head: the major type, the argument, and the number of bytes.
pub record DecodedHead : Type 0 where
  pub major : ℕ
  pub arg : ℕ
  pub count : ℕ

abbrev with_value : ℕ → Option ℕ → ℕ → Option DecodedHead
with_value major value count = do
  arg ← value
  some (record { major = major; arg = arg; count = count })

unfoldable pub cbor_decode_head : Bytes → Option DecodedHead
cbor_decode_head [] = none
cbor_decode_head (first ∷ buf) =
    let major = shr first 5 in
    let ai = low_bits first 5 in
    if leb ai 23
    then some (record { major = major; arg = ai; count = 1 })
    else if ai == 24
    then with_value major (value1 buf) 2
    else if ai == 25
    then with_value major (value2 buf) 3
    else if ai == 26
    then with_value major (value4 buf) 5
    else if ai == 27
    then with_value major (value8 buf) 9
    else none

unfoldable pub cbor_encode_uint : ℕ → ℕ → Option Bytes
unfolding cbor_encode_head
cbor_encode_uint value out_size = cbor_encode_head 0 value out_size

-- A head of this major type with the length, and then the bytes.
unfoldable pub encode_string : ℕ → Bytes → ℕ → Option Bytes
unfolding cbor_encode_head
encode_string major bytes out_size = do
  head ← cbor_encode_head major (length bytes) out_size
  fail_if (ltb out_size (length head + length bytes))
  some (head ++ bytes)

unfoldable pub cbor_encode_bstr : Bytes → ℕ → Option Bytes
unfolding encode_string
cbor_encode_bstr bytes out_size = encode_string 2 bytes out_size

unfoldable pub cbor_encode_tstr : Bytes → ℕ → Option Bytes
unfolding encode_string
cbor_encode_tstr str out_size = encode_string 3 str out_size

unfoldable pub cbor_encode_array : ℕ → ℕ → Option Bytes
unfolding cbor_encode_head
cbor_encode_array count out_size = cbor_encode_head 4 count out_size

unfoldable pub cbor_encode_indef_array_start : ℕ → Option Bytes
cbor_encode_indef_array_start out_size = room_for 1 (0x9F ∷ []) out_size

unfoldable pub cbor_encode_break : ℕ → Option Bytes
cbor_encode_break out_size = room_for 1 (0xFF ∷ []) out_size

-- A head of the given major type: its argument, and the number of bytes.
unfoldable pub decode_number : ℕ → Bytes → Option (ℕ × ℕ)
unfolding cbor_decode_head
decode_number major buf = do
  head ← cbor_decode_head buf
  fail_if (not (head.major == major))
  some (head.arg, head.count)

unfoldable pub cbor_decode_uint : Bytes → Option (ℕ × ℕ)
unfolding decode_number
cbor_decode_uint buf = decode_number 0 buf

unfoldable pub cbor_decode_array : Bytes → Option (ℕ × ℕ)
unfolding decode_number
cbor_decode_array buf = decode_number 4 buf

-- A string in the buffer: the bytes from its first one on, and its length.
pub record Slice : Type 0 where
  pub bytes : Bytes
  pub len : ℕ

-- `(size_t)n + slen` is a sum of uint64s, and so is what `n + (int)slen` returns, if there are less than
-- 2^31 bytes in the buffer.
unfoldable pub decode_string : ℕ → Bytes → Option (Slice × ℕ)
unfolding decode_number
decode_string major buf = do
  (slen, n) ← decode_number major buf
  fail_if (ltb (length buf) ((n + slen) % 2 ^ 64))
  some (record { bytes = drop n buf; len = slen }, (n + slen) % 2 ^ 64)

unfoldable pub cbor_decode_bstr : Bytes → Option (Slice × ℕ)
unfolding decode_string
cbor_decode_bstr buf = decode_string 2 buf

unfoldable pub cbor_decode_tstr : Bytes → Option (Slice × ℕ)
unfolding decode_string
cbor_decode_tstr buf = decode_string 3 buf

abbrev starts_with_byte : ℕ → Bytes → Bool
starts_with_byte byte [] = false
starts_with_byte byte (b ∷ buf) = b == byte

unfoldable pub cbor_is_indef_array : Bytes → Bool
cbor_is_indef_array buf = starts_with_byte 0x9F buf

unfoldable pub cbor_is_break : Bytes → Bool
cbor_is_break buf = starts_with_byte 0xFF buf

-- ===== src/Cbor/Head.antt =====
-- Heads of data items: what is encoded is decoded.
use ion_dtn_terrestrial.Prelude.{
  ℕ, ◌+◌, ◌*◌, ◌%◌, ◌/◌, ◌^◌, ◌≤◌, ◌<◌, leb, if◌then◌else◌, [], ◌∷◌, ◌++◌, length, some, ◌≡◌, ◌∙◌,
  ap, arith, bit_or,
}
use ion_dtn_terrestrial.Prelude.Bits.{Bytes, low_bits, shr, bit_or-shift}
use ion_dtn_terrestrial.Buffer.{Encodes}
use ion_dtn_terrestrial.Cbor.{
  byte_at_bit, bytes2, bytes4, bytes8, major_bits, cbor_encode_head, value2, value4, value8,
  cbor_decode_head,
}

or_48 : (x : ℕ) → bit_or (x / 2 ^ 56 * 2 ^ 56) (x / 2 ^ 48 % 2 ^ 8 * 2 ^ 48) ≡ x / 2 ^ 48 * 2 ^ 48
or_48 x = bit_or-shift 56 (x / 2 ^ 56) (x / 2 ^ 48 % 2 ^ 8 * 2 ^ 48) (omega arith) ∙ omega arith

or_40 : (x : ℕ) → bit_or (x / 2 ^ 48 * 2 ^ 48) (x / 2 ^ 40 % 2 ^ 8 * 2 ^ 40) ≡ x / 2 ^ 40 * 2 ^ 40
or_40 x = bit_or-shift 48 (x / 2 ^ 48) (x / 2 ^ 40 % 2 ^ 8 * 2 ^ 40) (omega arith) ∙ omega arith

or_32 : (x : ℕ) → bit_or (x / 2 ^ 40 * 2 ^ 40) (x / 2 ^ 32 % 2 ^ 8 * 2 ^ 32) ≡ x / 2 ^ 32 * 2 ^ 32
or_32 x = bit_or-shift 40 (x / 2 ^ 40) (x / 2 ^ 32 % 2 ^ 8 * 2 ^ 32) (omega arith) ∙ omega arith

or_24 : (x : ℕ) → bit_or (x / 2 ^ 32 * 2 ^ 32) (x / 2 ^ 24 % 2 ^ 8 * 2 ^ 24) ≡ x / 2 ^ 24 * 2 ^ 24
or_24 x = bit_or-shift 32 (x / 2 ^ 32) (x / 2 ^ 24 % 2 ^ 8 * 2 ^ 24) (omega arith) ∙ omega arith

or_16 : (x : ℕ) → bit_or (x / 2 ^ 24 * 2 ^ 24) (x / 2 ^ 16 % 2 ^ 8 * 2 ^ 16) ≡ x / 2 ^ 16 * 2 ^ 16
or_16 x = bit_or-shift 24 (x / 2 ^ 24) (x / 2 ^ 16 % 2 ^ 8 * 2 ^ 16) (omega arith) ∙ omega arith

or_8 : (x : ℕ) → bit_or (x / 2 ^ 16 * 2 ^ 16) (x / 2 ^ 8 % 2 ^ 8 * 2 ^ 8) ≡ x / 2 ^ 8 * 2 ^ 8
or_8 x = bit_or-shift 16 (x / 2 ^ 16) (x / 2 ^ 8 % 2 ^ 8 * 2 ^ 8) (omega arith) ∙ omega arith

or_0 : (x : ℕ) → bit_or (x / 2 ^ 8 * 2 ^ 8) (x / 2 ^ 0 % 2 ^ 8) ≡ x
or_0 x = bit_or-shift 8 (x / 2 ^ 8) (x / 2 ^ 0 % 2 ^ 8) (omega arith) ∙ omega arith

value2-bytes2 : (x : ℕ) (rest : Bytes) → x < 2 ^ 16 → value2 (bytes2 x ++ rest) ≡ some x
value2-bytes2 x rest h =
    let top : x / 2 ^ 8 % 2 ^ 8 ≡ x / 2 ^ 8 = omega arith in rw top (ap some (or_0 x))

value4-bytes4 : (x : ℕ) (rest : Bytes) → x < 2 ^ 32 → value4 (bytes4 x ++ rest) ≡ some x
value4-bytes4 x rest h =
    let top : x / 2 ^ 24 % 2 ^ 8 ≡ x / 2 ^ 24 = omega arith in
    rw (top, or_16 x, or_8 x) (ap some (or_0 x))

value8-bytes8 : (x : ℕ) (rest : Bytes) → x < 2 ^ 64 → value8 (bytes8 x ++ rest) ≡ some x
value8-bytes8 x rest h =
    let top : x / 2 ^ 56 % 2 ^ 8 ≡ x / 2 ^ 56 = omega arith in
    rw (top, or_48 x, or_40 x, or_32 x, or_24 x, or_16 x, or_8 x) (ap some (or_0 x))

-- The shortest head with this major type and argument.
unfoldable pub head_wire : ℕ → ℕ → Bytes
head_wire major arg =
    if leb arg 23
    then (major * 32 + arg) ∷ []
    else if leb arg 0xFF
    then (major * 32 + 24) ∷ byte_at_bit arg 0 ∷ []
    else if leb arg 0xFFFF
    then (major * 32 + 25) ∷ bytes2 arg
    else if leb arg 0xFFFF_FFFF
    then (major * 32 + 26) ∷ bytes4 arg
    else (major * 32 + 27) ∷ bytes8 arg

first_byte : (major ai : ℕ) → major < 8 → ai < 32 → bit_or (major_bits major) ai ≡ major * 32 + ai
first_byte major ai h k =
    let whole : major_bits major ≡ major * 2 ^ 5 = omega arith in
    rw whole (bit_or-shift 5 major ai k)

pub head-Encodes :
    (major arg : ℕ) → major < 8 → Encodes (cbor_encode_head major arg) (head_wire major arg)
unfolding cbor_encode_head head_wire
head-Encodes major arg h = record {
  at = λ n size. ground (
    arith,
    first_byte major arg h,
    first_byte major 24 h (omega arith),
    first_byte major 25 h (omega arith),
    first_byte major 26 h (omega arith),
    first_byte major 27 h (omega arith),
  );
}

fields :
    (major ai : ℕ)
    → ai < 32
    → (shr (major * 32 + ai) 5 ≡ major) × (low_bits (major * 32 + ai) 5 ≡ ai)
fields major ai h = omega arith

pub decode-head_wire :
    (major arg : ℕ) (rest : Bytes)
    → arg < 2 ^ 64
    → cbor_decode_head (head_wire major arg ++ rest)
      ≡ some (record { major = major; arg = arg; count = length (head_wire major arg) })
unfolding cbor_decode_head head_wire
decode-head_wire major arg rest h = ground (
  arith,
  fields major arg,
  fields major 24 (omega arith),
  fields major 25 (omega arith),
  fields major 26 (omega arith),
  fields major 27 (omega arith),
  value2-bytes2 arg rest,
  value4-bytes4 arg rest,
  value8-bytes8 arg rest h,
)

pub head_wire_shape :
    (major arg : ℕ) → (0 < length (head_wire major arg)) × (length (head_wire major arg) ≤ 9)
unfolding head_wire
head_wire_shape major arg = ground arith

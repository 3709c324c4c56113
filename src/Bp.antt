-- ===== src/Bp.antt =====
-- kiss-interface/bp.c: bundles of version 7 and their fragments: the clock, the check sequence and the
-- data. A URI is the list of its characters.
pub mod Encode
pub mod Decode
pub mod Wire
pub mod Items
pub mod RoundTrip
pub mod Reassembly
mod Runs
use ion_dtn_terrestrial.Prelude.{
  ℕ, zero, suc, ◌+◌, ◌-◌, ◌*◌, ◌/◌, ◌%◌, ◌^◌, Bool, true, false, ◌==◌, ◌&&◌, leb, ltb, not,
  if◌then◌else◌, [], ◌∷◌, ◌++◌, length, take, drop, starts_with, Option, none, some, ◌>>=◌, ◌>>◌,
  fail_if, bit_xor,
}
use ion_dtn_terrestrial.Prelude.Bits.{Bytes, low_bits, shr, test_bit}
use ion_dtn_terrestrial.Buffer.{put}
use ion_dtn_terrestrial.Ax25.{c_string}
use ion_dtn_terrestrial.Cbor.{
  cbor_encode_uint, cbor_encode_array, cbor_encode_tstr, cbor_encode_bstr,
  cbor_encode_indef_array_start, cbor_encode_break, Slice, cbor_decode_uint, cbor_decode_array,
  cbor_decode_tstr, cbor_decode_bstr, cbor_is_indef_array, cbor_is_break,
}

abbrev pub bp_version : ℕ
bp_version = 7

abbrev pub dtn_epoch : ℕ
dtn_epoch = 946684800

abbrev pub max_eid_len : ℕ
max_eid_len = 64

abbrev pub max_payload : ℕ
max_payload = 65535

-- The number is `dtn_ms` on a clock that shows `tv_sec` and `tv_nsec`.
unfoldable pub bp_dtn_time_now : ℕ → ℕ → ℕ
bp_dtn_time_now tv_sec tv_nsec =
    if ltb tv_sec dtn_epoch
    then 0
    else ((tv_sec - dtn_epoch) * 1000 % 2 ^ 64 + tv_nsec / 1000000) % 2 ^ 64

unfoldable pub bp_dtn_to_unix : ℕ → ℕ
bp_dtn_to_unix dtn_ms = dtn_epoch + dtn_ms / 1000

-- One round of the inner loop, on a uint16.
unfoldable pub crc_round : ℕ → ℕ
crc_round crc = if test_bit crc 15 == 1 then bit_xor (crc * 2 % 2 ^ 16) 0x1021 else crc * 2 % 2 ^ 16

unfoldable pub crc_rounds : ℕ → ℕ → ℕ
unfolding crc_round
crc_rounds zero crc = crc
crc_rounds (suc n) crc = crc_rounds n (crc_round crc)

unfoldable pub crc_loop : ℕ → Bytes → ℕ
unfolding crc_rounds
crc_loop crc [] = crc
crc_loop crc (b ∷ bytes) = crc_loop (crc_rounds 8 (bit_xor crc (b * 2 ^ 8 % 2 ^ 16))) bytes

unfoldable pub bp_crc16 : Bytes → ℕ
unfolding crc_loop
bp_crc16 bytes = crc_loop 0xFFFF bytes

pub record Timestamp : Type 0 where
  pub time : ℕ
  pub seq : ℕ

pub record Primary : Type 0 where
  pub flags : ℕ
  pub dst : Bytes
  pub src : Bytes
  pub report_to : Bytes
  pub timestamp : Timestamp
  pub lifetime_ms : ℕ
  pub fragment_offset : ℕ
  pub total_adu_len : ℕ
  pub crc_type : ℕ

-- `payload` holds the bytes from the pointer on.
pub record Bundle : Type 0 where
  pub primary : Primary
  pub payload : Bytes
  pub payload_len : ℕ

-- "dtn:"
abbrev pub scheme : Bytes
scheme = b'd' ∷ b't' ∷ b'n' ∷ b':' ∷ []

-- `flags & BP_FLAG_FRAGMENT`
abbrev pub is_fragment : ℕ → Bool
is_fragment flags = test_bit flags 0 == 1

-- `none` is -1. (The sum does not wrap around for sizes of buffers, and the number is that of an
-- int for fewer than 2^31 fragments.)
unfoldable pub bp_fragment_count : ℕ → ℕ → Option ℕ
bp_fragment_count payload_len fragment_payload_size =
    if fragment_payload_size == 0
    then none
    else some ((payload_len + fragment_payload_size - 1) / fragment_payload_size)

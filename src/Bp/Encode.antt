-- ===== src/Bp/Encode.antt =====
-- kiss-interface/bp.c: the encoders of endpoints, bundles and fragments.
use ion_dtn_terrestrial.Prelude.{
  ℕ, ◌+◌, ltb, if◌then◌else◌, [], ◌∷◌, ◌++◌, length, drop, starts_with, Option, some, ◌>>=◌, ◌>>◌,
  fail_if,
}
use ion_dtn_terrestrial.Prelude.Bits.{Bytes, low_bits, shr}
use ion_dtn_terrestrial.Buffer.{put}
use ion_dtn_terrestrial.Cbor.{
  cbor_encode_uint, cbor_encode_array, cbor_encode_tstr, cbor_encode_bstr,
  cbor_encode_indef_array_start, cbor_encode_break,
}
use ion_dtn_terrestrial.Bp.{bp_version, bp_crc16, scheme, is_fragment}

abbrev pub put_uint : ℕ → Bytes → ℕ → Option Bytes
put_uint value = put (cbor_encode_uint value)

abbrev pub put_array : ℕ → Bytes → ℕ → Option Bytes
put_array count = put (cbor_encode_array count)

-- `if (strncmp(ssp, "dtn:", 4) == 0) ssp += 4;`
unfoldable pub ssp_of : Bytes → Bytes
ssp_of uri = if starts_with scheme uri then drop 4 uri else uri

unfoldable pub bp_eid_encode : Bytes → ℕ → Option Bytes
bp_eid_encode uri out_size = do
  out1 ← put_array 2 [] out_size
  out2 ← put_uint 1 out1 out_size
  put (cbor_encode_tstr (ssp_of uri)) out2 out_size

-- What encode_primary is given.
pub record PrimaryArgs : Type 0 where
  pub src : Bytes
  pub dst : Bytes
  pub flags : ℕ
  pub lifetime_ms : ℕ
  pub seq : ℕ
  pub creation_time : ℕ
  pub frag_offset : ℕ
  pub total_adu : ℕ

abbrev pub put_eid : Bytes → Bytes → ℕ → Option Bytes
put_eid uri = put (bp_eid_encode uri)

unfoldable pub put_fragment : PrimaryArgs → Bytes → ℕ → Option Bytes
put_fragment p out out_size =
    if is_fragment p.flags
    then (do out1 ← put_uint p.frag_offset out out_size; put_uint p.total_adu out1 out_size)
    else some out

-- The check sequence of what was written and of its own place, filled with zeros.
unfoldable pub put_crc : Bytes → ℕ → Option Bytes
put_crc out out_size = do
  fail_if (ltb out_size (length out + 3))
  let crc = bp_crc16 (out ++ (0x42 ∷ 0 ∷ 0 ∷ []))
  some (out ++ (0x42 ∷ low_bits (shr crc 8) 8 ∷ low_bits crc 8 ∷ []))

-- The fields before those of a fragment.
unfoldable pub put_fields : PrimaryArgs → Bytes → ℕ → Option Bytes
put_fields p out out_size = do
  out1 ← put_array (if is_fragment p.flags then 11 else 9) out out_size
  out2 ← put_uint bp_version out1 out_size
  out3 ← put_uint p.flags out2 out_size
  out4 ← put_uint 1 out3 out_size
  out5 ← put_eid p.dst out4 out_size
  out6 ← put_eid p.src out5 out_size
  out7 ← put_eid p.src out6 out_size
  out8 ← put_array 2 out7 out_size
  out9 ← put_uint p.creation_time out8 out_size
  out10 ← put_uint p.seq out9 out_size
  put_uint p.lifetime_ms out10 out_size

unfoldable pub encode_primary : PrimaryArgs → ℕ → Option Bytes
encode_primary p out_size = do
  fields ← put_fields p [] out_size
  out ← put_fragment p fields out_size
  put_crc out out_size

unfoldable pub encode_payload_block : Bytes → ℕ → Option Bytes
encode_payload_block payload out_size = do
  out1 ← put_array 5 [] out_size
  out2 ← put_uint 1 out1 out_size
  out3 ← put_uint 1 out2 out_size
  out4 ← put_uint 0 out3 out_size
  out5 ← put_uint 0 out4 out_size
  put (cbor_encode_bstr payload) out5 out_size

-- The four parts of a bundle.
unfoldable pub encode_blocks : PrimaryArgs → Bytes → ℕ → Option Bytes
encode_blocks p payload out_size = do
  out1 ← put cbor_encode_indef_array_start [] out_size
  out2 ← put (encode_primary p) out1 out_size
  out3 ← put (encode_payload_block payload) out2 out_size
  put cbor_encode_break out3 out_size

-- `now` is what bp_dtn_time_now returns.
unfoldable pub bp_encode_bundle : Bytes → Bytes → Bytes → ℕ → ℕ → ℕ → ℕ → Option Bytes
bp_encode_bundle src dst payload lifetime_ms seq now out_size =
    encode_blocks
      (record {
        src = src;
        dst = dst;
        flags = 0;
        lifetime_ms = lifetime_ms;
        seq = seq;
        creation_time = now;
        frag_offset = 0;
        total_adu = 0;
      })
      payload out_size

unfoldable pub bp_encode_fragment : Bytes → Bytes → Bytes → ℕ → ℕ → ℕ → ℕ → ℕ → ℕ → Option Bytes
bp_encode_fragment src dst payload lifetime_ms seq fragment_offset total_adu_len creation_time
      out_size =
    encode_blocks
      (record {
        src = src;
        dst = dst;
        flags = 1;
        lifetime_ms = lifetime_ms;
        seq = seq;
        creation_time = creation_time;
        frag_offset = fragment_offset;
        total_adu = total_adu_len;
      })
      payload out_size

-- ===== src/Bp/Decode.antt =====
-- kiss-interface/bp.c: the decoders of endpoints and bundles.
use ion_dtn_terrestrial.Prelude.{
  ℕ, ◌+◌, ◌%◌, ◌^◌, ◌==◌, leb, ltb, not, if◌then◌else◌, ◌++◌, length, take, drop, Option, some,
  ◌>>=◌, ◌>>◌, fail_if,
}
use ion_dtn_terrestrial.Prelude.Bits.{Bytes}
use ion_dtn_terrestrial.Ax25.{c_string}
use ion_dtn_terrestrial.Cbor.{
  Slice, cbor_decode_uint, cbor_decode_array, cbor_decode_tstr, cbor_decode_bstr,
  cbor_is_indef_array, cbor_is_break,
}
use ion_dtn_terrestrial.Bp.{bp_version, max_eid_len, Primary, Bundle, scheme, is_fragment}

-- `n = decode(buf + pos, len - pos, &value); if (n < 0) return -1; pos += n;`
unfoldable pub read_uint : Bytes → Option (ℕ × Bytes)
read_uint buf = do (value, n) ← cbor_decode_uint buf; some (value, drop n buf)

unfoldable pub read_array : Bytes → Option (ℕ × Bytes)
read_array buf = do (count, n) ← cbor_decode_array buf; some (count, drop n buf)

unfoldable pub read_tstr : Bytes → Option (Slice × Bytes)
read_tstr buf = do (str, n) ← cbor_decode_tstr buf; some (str, drop n buf)

unfoldable pub read_bstr : Bytes → Option (Slice × Bytes)
read_bstr buf = do (bytes, n) ← cbor_decode_bstr buf; some (bytes, drop n buf)

-- The URI, which every user reads as a string, and the rest of the buffer.
unfoldable pub bp_eid_decode : Bytes → Option (Bytes × Bytes)
bp_eid_decode buf = do
  (count, buf1) ← read_array buf
  fail_if (not (count == 2))
  (scheme_code, buf2) ← read_uint buf1
  fail_if (not (scheme_code == 1))
  (ssp, buf3) ← read_tstr buf2
  fail_if (leb max_eid_len ((ssp.len + 4) % 2 ^ 64))
  some (scheme ++ c_string (take ssp.len ssp.bytes), buf3)

-- The offset and the total length of a fragment, and 0 for both otherwise.
unfoldable pub read_fragment : ℕ → Bytes → Option ((ℕ × ℕ) × Bytes)
read_fragment flags buf =
    if is_fragment flags
    then (do
      (offset, buf1) ← read_uint buf
      (total, buf2) ← read_uint buf1
      some ((offset, total), buf2))
    else some ((0, 0), buf)

-- "CRC value (bstr) — skip for now, just consume"
unfoldable pub skip_crc : ℕ → Bytes → Option Bytes
skip_crc crc_type buf =
    if crc_type == 1 then (do (crc, buf1) ← read_bstr buf; some buf1) else some buf

unfoldable pub read_primary : Bytes → Option (Primary × Bytes)
read_primary buf = do
  (pcount, buf1) ← read_array buf
  (version, buf2) ← read_uint buf1
  fail_if (not (version == bp_version))
  (flags, buf3) ← read_uint buf2
  (crc_type, buf4) ← read_uint buf3
  (dst, buf5) ← bp_eid_decode buf4
  (src, buf6) ← bp_eid_decode buf5
  (report_to, buf7) ← bp_eid_decode buf6
  (ts_count, buf8) ← read_array buf7
  fail_if (not (ts_count == 2))
  (time, buf9) ← read_uint buf8
  (seq, buf10) ← read_uint buf9
  (lifetime_ms, buf11) ← read_uint buf10
  ((offset, total), buf12) ← read_fragment flags buf11
  buf13 ← skip_crc crc_type buf12
  some (
    record {
      flags = flags;
      dst = dst;
      src = src;
      report_to = report_to;
      timestamp = record { time = time; seq = seq };
      lifetime_ms = lifetime_ms;
      fragment_offset = offset;
      total_adu_len = total;
      crc_type = crc_type % 256;
    },
    buf13,
  )

unfoldable pub read_payload : Bytes → Option (Slice × Bytes)
read_payload buf = do
  (bcount, buf1) ← read_array buf
  fail_if (ltb bcount 5)
  (btype, buf2) ← read_uint buf1
  (bnum, buf3) ← read_uint buf2
  (bflags, buf4) ← read_uint buf3
  (bcrc, buf5) ← read_uint buf4
  read_bstr buf5

-- The bundle, and what stands behind it in the buffer. (The number of bytes is returned.)
unfoldable pub bp_decode_bundle : Bytes → Option (Bundle × Bytes)
bp_decode_bundle buf = do
  fail_if (ltb (length buf) 3)
  fail_if (not (cbor_is_indef_array buf))
  (primary, buf1) ← read_primary (drop 1 buf)
  (payload, buf2) ← read_payload buf1
  fail_if (not (cbor_is_break buf2))
  some (
    record { primary = primary; payload = payload.bytes; payload_len = payload.len },
    drop 1 buf2,
  )

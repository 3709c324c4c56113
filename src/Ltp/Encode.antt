-- ===== src/Ltp/Encode.antt =====
-- The encoders of kiss-interface/ltp.c. `out` is what has been written, `pos` its length.
use ion_dtn_terrestrial.Prelude.{
  ℕ, ◌+◌, ◌*◌, ◌%◌, ◌^◌, ltb, if◌then◌else◌, Bool, true, false, List, [], ◌∷◌, ◌++◌, length, take,
  Option, none, some, ◌>>=◌, ◌>>◌, fail_if, bit_or,
}
use ion_dtn_terrestrial.Prelude.Bits.{Bytes, low_bits}
use ion_dtn_terrestrial.Buffer.{put}
use ion_dtn_terrestrial.Sdnv.{sdnv_encode}
use ion_dtn_terrestrial.Ltp.Types.{
  SegType, red_data_cp, red_data_eorp_cp, seg_code, SegmentHdr, DataSegment, Claim, ReportSegment,
  ReportAckSegment, CancelSegment,
}

abbrev pub put_sdnv : ℕ → Bytes → ℕ → Option Bytes
put_sdnv value = put (sdnv_encode value)

-- `(uint8_t)((version << 4) | (type & 0x0F))`
abbrev pub first_byte : SegmentHdr → ℕ
first_byte hdr = bit_or (hdr.version * 2 ^ 4) (low_bits (seg_code hdr.type) 4) % 256

unfoldable pub put_ext_counts : SegmentHdr → Bytes → ℕ → Option Bytes
put_ext_counts hdr out out_size = do
  fail_if (ltb out_size (length out + 2))
  some (out ++ (hdr.hdr_ext_count ∷ hdr.trailer_ext_count ∷ []))

unfoldable pub ltp_encode_header : SegmentHdr → ℕ → Option Bytes
unfolding put_ext_counts
ltp_encode_header hdr out_size = do
  fail_if (ltb out_size 4)
  out ← put_sdnv hdr.sender_engine_id (first_byte hdr ∷ []) out_size
  out' ← put_sdnv hdr.session_number out out_size
  put_ext_counts hdr out' out_size

-- `type == LTP_SEG_RED_DATA_CP || type == LTP_SEG_RED_DATA_EORP_CP`
abbrev pub is_checkpoint : SegType → Bool
is_checkpoint red_data_cp = true
is_checkpoint red_data_eorp_cp = true
is_checkpoint _ = false

unfoldable pub put_serials : DataSegment → Bytes → ℕ → Option Bytes
put_serials seg out out_size =
    if is_checkpoint seg.hdr.type
    then (do out' ← put_sdnv seg.cp_serial out out_size; put_sdnv seg.rpt_serial out' out_size)
    else some out

-- `pos + seg->length` is a sum of uint64s.
put_raw : ℕ → Option Bytes → Bytes → ℕ → Option Bytes
put_raw len none out out_size = none
put_raw len (some payload) out out_size = do
  fail_if (ltb out_size ((length out + len) % 2 ^ 64))
  some (out ++ take len payload)

unfoldable pub put_payload : DataSegment → Bytes → ℕ → Option Bytes
unfolding put_raw
put_payload seg out out_size =
    if ltb 0 seg.len then put_raw seg.len seg.payload out out_size else some out

unfoldable pub ltp_encode_data_segment : DataSegment → ℕ → Option Bytes
ltp_encode_data_segment seg out_size = do
  hdr ← put (ltp_encode_header seg.hdr) [] out_size
  client ← put_sdnv seg.client_svc_id hdr out_size
  offset ← put_sdnv seg.offset client out_size
  len ← put_sdnv seg.len offset out_size
  serials ← put_serials seg len out_size
  put_payload seg serials out_size

unfoldable pub put_claims : List Claim → Bytes → ℕ → Option Bytes
put_claims [] out out_size = some out
put_claims (claim ∷ claims) out out_size = do
  offset ← put_sdnv claim.offset out out_size
  len ← put_sdnv claim.len offset out_size
  put_claims claims len out_size

unfoldable pub ltp_encode_report : ReportSegment → ℕ → Option Bytes
unfolding put_claims
ltp_encode_report rpt out_size = do
  hdr ← put (ltp_encode_header rpt.hdr) [] out_size
  rpt_serial ← put_sdnv rpt.rpt_serial hdr out_size
  cp_serial ← put_sdnv rpt.cp_serial rpt_serial out_size
  upper ← put_sdnv rpt.upper_bound cp_serial out_size
  lower ← put_sdnv rpt.lower_bound upper out_size
  count ← put_sdnv (length rpt.claims) lower out_size
  put_claims rpt.claims count out_size

unfoldable pub ltp_encode_report_ack : ReportAckSegment → ℕ → Option Bytes
ltp_encode_report_ack ack out_size = do
  hdr ← put (ltp_encode_header ack.hdr) [] out_size
  put_sdnv ack.rpt_serial hdr out_size

unfoldable pub put_byte : ℕ → Bytes → ℕ → Option Bytes
put_byte byte out out_size = do fail_if (ltb out_size (length out + 1)); some (out ++ (byte ∷ []))

unfoldable pub ltp_encode_cancel : CancelSegment → ℕ → Option Bytes
ltp_encode_cancel cancel out_size = do
  hdr ← put (ltp_encode_header cancel.hdr) [] out_size
  put_byte cancel.reason hdr out_size

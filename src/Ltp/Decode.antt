-- ===== src/Ltp/Decode.antt =====
-- The decoders of kiss-interface/ltp.c. The list is what stands from `buf + pos` on, so its
-- length is `len - pos`.
use ion_dtn_terrestrial.Prelude.{
  ℕ, zero, suc, ◌==◌, leb, ltb, if◌then◌else◌, ◌&&◌, ◌||◌, List, [], ◌∷◌, length, drop, Option,
  none, some, ◌>>=◌, ◌>>◌, fail_if,
}
use ion_dtn_terrestrial.Prelude.Bits.{Bytes, low_bits, shr}
use ion_dtn_terrestrial.Sdnv.{read_sdnv}
use ion_dtn_terrestrial.Ltp.Types.{
  SegType, red_data, red_data_cp, red_data_eorp_cp, green_data, green_data_eob, report, report_ack,
  cancel_by_sender, cancel_ack_sender, cancel_by_recvr, cancel_ack_recvr, SegmentHdr, DataSegment,
  Claim, ReportSegment, ReportAckSegment, CancelSegment, max_claims,
}
use ion_dtn_terrestrial.Ltp.Encode.{is_checkpoint}

-- The cast of a four-bit value to the enumeration, and the reserved values 5-7 and 10-11.
unfoldable pub seg_type : ℕ → Option SegType
seg_type code =
    if (leb 5 code && leb code 7) || (leb 10 code && leb code 11)
    then none
    else if code == 0
    then some red_data
    else if code == 1
    then some red_data_cp
    else if code == 2
    then some red_data_eorp_cp
    else if code == 3
    then some green_data
    else if code == 4
    then some green_data_eob
    else if code == 8
    then some report
    else if code == 9
    then some report_ack
    else if code == 12
    then some cancel_by_sender
    else if code == 13
    then some cancel_ack_sender
    else if code == 14
    then some cancel_by_recvr
    else some cancel_ack_recvr

-- `buf[pos++]`, where the code has checked that there is such a byte.
abbrev pub read_byte : Bytes → Option (ℕ × Bytes)
read_byte [] = none
read_byte (b ∷ buf) = some (b, buf)

-- The loop over the header extensions. A length that was read is at most INT64_MAX, so that
-- `pos + ext_len` does not wrap around.
unfoldable pub skip_extensions : ℕ → Bytes → Option Bytes
skip_extensions zero buf = some buf
skip_extensions (suc n) buf = do
  (tag, buf1) ← read_sdnv buf
  (ext_len, buf2) ← read_sdnv buf1
  fail_if (ltb (length buf2) ext_len)
  skip_extensions n (drop ext_len buf2)

-- The header, and the body bytes. With `body_size` 0 nothing is copied and nothing is checked.
unfoldable pub ltp_decode_segment : Bytes → ℕ → Option (SegmentHdr × Bytes)
unfolding seg_type skip_extensions
ltp_decode_segment buf body_size = do
  fail_if (ltb (length buf) 4)
  (first, buf1) ← read_byte buf
  type ← seg_type (low_bits first 4)
  (sender_engine_id, buf2) ← read_sdnv buf1
  (session_number, buf3) ← read_sdnv buf2
  fail_if (ltb (length buf3) 2)
  (hdr_ext_count, buf4) ← read_byte buf3
  (trailer_ext_count, buf5) ← read_byte buf4
  body ← skip_extensions hdr_ext_count buf5
  fail_if (ltb 0 body_size && ltb body_size (length body))
  some (
    record {
      version = low_bits (shr first 4) 4;
      type = type;
      sender_engine_id = sender_engine_id;
      session_number = session_number;
      hdr_ext_count = hdr_ext_count;
      trailer_ext_count = trailer_ext_count;
    },
    body,
  )

-- The serials of a checkpoint, and 0 for both otherwise.
unfoldable pub read_serials : SegType → Bytes → Option ((ℕ × ℕ) × Bytes)
read_serials type body =
    if is_checkpoint type
    then (do
      (cp_serial, body1) ← read_sdnv body
      (rpt_serial, body2) ← read_sdnv body1
      some ((cp_serial, rpt_serial), body2))
    else some ((0, 0), body)

-- `hdr` is what the caller has put into the output structure.
unfoldable pub ltp_decode_data_content : Bytes → SegmentHdr → Option DataSegment
unfolding read_serials
ltp_decode_data_content body hdr = do
  (client_svc_id, body1) ← read_sdnv body
  (offset, body2) ← read_sdnv body1
  (len, body3) ← read_sdnv body2
  ((cp_serial, rpt_serial), body4) ← read_serials hdr.type body3
  fail_if (ltb (length body4) len)
  some (record {
    hdr = hdr;
    client_svc_id = client_svc_id;
    offset = offset;
    len = len;
    cp_serial = cp_serial;
    rpt_serial = rpt_serial;
    payload = if ltb 0 len then some body4 else none;
  })

unfoldable pub read_claims : ℕ → Bytes → Option (List Claim × Bytes)
read_claims zero body = some ([], body)
read_claims (suc n) body = do
  (offset, body1) ← read_sdnv body
  (len, body2) ← read_sdnv body1
  (claims, body3) ← read_claims n body2
  some (record { offset = offset; len = len } ∷ claims, body3)

unfoldable pub ltp_decode_report_content : Bytes → SegmentHdr → Option ReportSegment
unfolding read_claims
ltp_decode_report_content body hdr = do
  (rpt_serial, body1) ← read_sdnv body
  (cp_serial, body2) ← read_sdnv body1
  (upper_bound, body3) ← read_sdnv body2
  (lower_bound, body4) ← read_sdnv body3
  (count, body5) ← read_sdnv body4
  fail_if (ltb max_claims count)
  (claims, body6) ← read_claims count body5
  some (record {
    hdr = hdr;
    rpt_serial = rpt_serial;
    cp_serial = cp_serial;
    upper_bound = upper_bound;
    lower_bound = lower_bound;
    claims = claims;
  })

unfoldable pub ltp_decode_report_ack_content : Bytes → SegmentHdr → Option ReportAckSegment
ltp_decode_report_ack_content body hdr = do
  (rpt_serial, body1) ← read_sdnv body
  some (record { hdr = hdr; rpt_serial = rpt_serial })

unfoldable pub ltp_decode_cancel_content : Bytes → SegmentHdr → Option CancelSegment
ltp_decode_cancel_content body hdr = do
  (reason, body1) ← read_byte body
  some (record { hdr = hdr; reason = reason })

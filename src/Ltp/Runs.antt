-- ===== src/Ltp/Runs.antt =====
-- Runs of ltp.c at concrete inputs, and its theorems applied at them.
use ion_dtn_terrestrial.Prelude.{◌+◌, ◌||◌, List, [], ◌∷◌, some, ◌≡◌, refl, arith}
use ion_dtn_terrestrial.Prelude.Bits.{Bytes}
use ion_dtn_terrestrial.Sdnv.{sdnv_encode}
use ion_dtn_terrestrial.Buffer.{put}
use ion_dtn_terrestrial.Ltp.Types.{
  SegType, red_data_cp, report, report_ack, cancel_by_sender, SegmentHdr, DataSegment, Claim,
  ReportSegment, ReportAckSegment, CancelSegment,
}
use ion_dtn_terrestrial.Ltp.Encode.{
  ltp_encode_header, put_serials, put_payload, ltp_encode_data_segment, ltp_encode_report, put_byte,
  ltp_encode_report_ack, ltp_encode_cancel,
}
use ion_dtn_terrestrial.Ltp.Decode.{
  ltp_decode_segment, ltp_decode_data_content, ltp_decode_report_content,
}
use ion_dtn_terrestrial.Ltp.RoundTrip.{
  IsReadable, IsSendable, as_received, decode-encode_data_segment,
}
use ion_dtn_terrestrial.Ltp.ControlRoundTrip.{IsReadableReport, decode-encode_report}
use ion_dtn_terrestrial.Ltp.RecvMap.{ltp_recv_map_add_claim}
use ion_dtn_terrestrial.Ltp.RecvMap.Coverage.{within, covered, add_claim-covered}
use ion_dtn_terrestrial.Ltp.RecvMap.Gaps.{IsRecvMap, add_claim-IsRecvMap}

abbrev header : SegType → SegmentHdr
header t = record {
  version = 0;
  type = t;
  sender_engine_id = 300;
  session_number = 1;
  hdr_ext_count = 0;
  trailer_ext_count = 0;
}

abbrev segment : DataSegment
segment = record {
  hdr = header red_data_cp;
  client_svc_id = 1;
  offset = 64;
  len = 2;
  cp_serial = 1;
  rpt_serial = 0;
  payload = some (0xAA ∷ 0xBB ∷ 0xCC ∷ []);
}

abbrev segment_bytes : Bytes
segment_bytes = 0x01 ∷ 0x82 ∷ 0x2c ∷ 1 ∷ 0 ∷ 0 ∷ 1 ∷ 64 ∷ 2 ∷ 1 ∷ 0 ∷ 0xAA ∷ 0xBB ∷ []

encode_segment : ltp_encode_data_segment segment 512 ≡ some segment_bytes
unfolding ltp_encode_data_segment ltp_encode_header put put_serials put_payload sdnv_encode
encode_segment = refl

header-IsReadable : (t : SegType) → IsReadable (header t)
header-IsReadable t = record {
  header = record {
    version_fits = omega arith;
    engine_fits = omega arith;
    session_fits = omega arith;
  };
  engine_readable = omega arith;
  session_readable = omega arith;
  no_extensions = refl;
}

segment-IsSendable : IsSendable segment
segment-IsSendable = record {
  segment = record {
    header = (header-IsReadable red_data_cp).header;
    client_fits = omega arith;
    offset_fits = omega arith;
    cp_serial_fits = omega arith;
    rpt_serial_fits = omega arith;
    len_fits = omega arith;
    bytes = 0xAA ∷ 0xBB ∷ 0xCC ∷ [];
    points_to = refl;
    holds = omega arith;
  };
  header = header-IsReadable red_data_cp;
  client_readable = omega arith;
  offset_readable = omega arith;
  cp_readable = omega arith;
  rpt_readable = omega arith;
}

decode-encode_data_segment_example :
    (body : Bytes) × (ltp_decode_segment segment_bytes 512 ≡ some (header red_data_cp, body))
    × (ltp_decode_data_content body (header red_data_cp) ≡ some (as_received segment))
decode-encode_data_segment_example =
    decode-encode_data_segment segment 512 512 segment-IsSendable (omega arith) (omega arith)
      encode_segment

abbrev two_claims : List Claim
two_claims = record { offset = 0; len = 64 } ∷ record { offset = 128; len = 10 } ∷ []

abbrev a_report : ReportSegment
a_report = record {
  hdr = header report;
  rpt_serial = 1;
  cp_serial = 1;
  upper_bound = 138;
  lower_bound = 0;
  claims = two_claims;
}

abbrev report_bytes : Bytes
report_bytes =
    0x08 ∷ 0x82 ∷ 0x2c ∷ 1 ∷ 0 ∷ 0 ∷ 1 ∷ 1 ∷ 0x81 ∷ 0x0a ∷ 0 ∷ 2 ∷ 0 ∷ 64 ∷ 0x81 ∷ 0x00 ∷ 10 ∷ []

encode_report : ltp_encode_report a_report 512 ≡ some report_bytes
unfolding ltp_encode_report ltp_encode_header put sdnv_encode
encode_report = refl

report-IsReadableReport : IsReadableReport a_report
report-IsReadableReport = record {
  report = record {
    header = (header-IsReadable report).header;
    rpt_serial_fits = omega arith;
    cp_serial_fits = omega arith;
    upper_fits = omega arith;
    lower_fits = omega arith;
    few_claims = omega arith;
    claims_fit = omega arith;
  };
  header = header-IsReadable report;
  rpt_serial_readable = omega arith;
  cp_serial_readable = omega arith;
  upper_readable = omega arith;
  lower_readable = omega arith;
  claims_readable = omega arith;
}

decode-encode_report_example :
    (body : Bytes) × (ltp_decode_segment report_bytes 512 ≡ some (header report, body))
    × (ltp_decode_report_content body (header report) ≡ some a_report)
decode-encode_report_example =
    decode-encode_report a_report 512 512 report-IsReadableReport (omega arith) (omega arith)
      encode_report

abbrev a_cancel : CancelSegment
a_cancel = record { hdr = header cancel_by_sender; reason = 3 }

encode_cancel : ltp_encode_cancel a_cancel 512 ≡ some (0x0c ∷ 0x82 ∷ 0x2c ∷ 1 ∷ 0 ∷ 0 ∷ 3 ∷ [])
unfolding ltp_encode_cancel put_byte ltp_encode_header put sdnv_encode
encode_cancel = refl

abbrev an_ack : ReportAckSegment
an_ack = record { hdr = header report_ack; rpt_serial = 5 }

encode_ack : ltp_encode_report_ack an_ack 512 ≡ some (0x09 ∷ 0x82 ∷ 0x2c ∷ 1 ∷ 0 ∷ 0 ∷ 5 ∷ [])
unfolding ltp_encode_report_ack ltp_encode_header put sdnv_encode
encode_ack = refl

two_claims-IsRecvMap : IsRecvMap two_claims
two_claims-IsRecvMap = record { few = omega arith; gapped = omega arith }

-- The range between the two claims joins them.
add_claim_joins : ltp_recv_map_add_claim two_claims 64 64 ≡ record { offset = 0; len = 138 } ∷ []
unfolding ltp_recv_map_add_claim
add_claim_joins = refl

add_claim-IsRecvMap_example : IsRecvMap (ltp_recv_map_add_claim two_claims 64 64)
add_claim-IsRecvMap_example =
    add_claim-IsRecvMap two_claims 64 64 (omega arith) two_claims-IsRecvMap

add_claim-covered_example :
    covered (ltp_recv_map_add_claim two_claims 64 64) 100
    ≡ covered two_claims 100 || within 64 (64 + 64) 100
add_claim-covered_example =
    add_claim-covered two_claims 64 64 100 (omega arith) (omega arith) (omega arith)

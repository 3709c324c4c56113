-- ===== src/Ltp/ControlRoundTrip.antt =====
-- The decoders of ltp.c on the reports, acknowledgments and cancel segments that it writes.
use ion_dtn_terrestrial.Prelude.{
  ℕ, ◌≤◌, List, [], ◌∷◌, ◌++◌, length, length-append, append-nil, append_assoc, some, ◌≡◌, refl,
  arith, All,
}
use ion_dtn_terrestrial.Prelude.Bits.{Bytes}
use ion_dtn_terrestrial.Buffer.{IsSize, Encodes-eq-some}
use ion_dtn_terrestrial.Sdnv.{int64_max}
use ion_dtn_terrestrial.Sdnv.Encode.{encoding}
use ion_dtn_terrestrial.Sdnv.Decode.{read_sdnv-encoding}
use ion_dtn_terrestrial.Ltp.Types.{Claim, ReportSegment, ReportAckSegment, CancelSegment}
use ion_dtn_terrestrial.Ltp.Encode.{ltp_encode_report, ltp_encode_report_ack, ltp_encode_cancel}
use ion_dtn_terrestrial.Ltp.Decode.{
  ltp_decode_segment, read_claims, ltp_decode_report_content, ltp_decode_report_ack_content,
  ltp_decode_cancel_content,
}
use ion_dtn_terrestrial.Ltp.Wire.{header_wire}
use ion_dtn_terrestrial.Ltp.ControlWire.{
  IsReport, claims_wire, ltp_encode_report-Encodes, ltp_encode_report_ack-Encodes,
  ltp_encode_cancel-Encodes,
}
use ion_dtn_terrestrial.Ltp.RoundTrip.{IsReadable, decode-header}

abbrev pub IsReadableClaim : Claim → Type 0
IsReadableClaim c = (c.offset ≤ int64_max) × (c.len ≤ int64_max)

read_claims-wire :
    (claims : List Claim) (rest : Bytes)
    → All IsReadableClaim claims
    → read_claims (length claims) (claims_wire claims ++ rest) ≡ some (claims, rest)
unfolding read_claims
read_claims-wire [] rest h = ground arith
read_claims-wire (c ∷ claims) rest ((offset_readable, len_readable), h) = ground (
  arith,
  append_assoc (encoding c.offset) (encoding c.len ++ claims_wire claims) rest,
  append_assoc (encoding c.len) (claims_wire claims) rest,
  read_sdnv-encoding c.offset (encoding c.len ++ (claims_wire claims ++ rest)) offset_readable,
  read_sdnv-encoding c.len (claims_wire claims ++ rest) len_readable,
  read_claims-wire claims rest h,
)

-- A report whose numbers the decoder can read.
pub record IsReadableReport (rpt : ReportSegment) : Type 0 where
  pub report : IsReport rpt
  pub header : IsReadable rpt.hdr
  pub rpt_serial_readable : rpt.rpt_serial ≤ int64_max
  pub cp_serial_readable : rpt.cp_serial ≤ int64_max
  pub upper_readable : rpt.upper_bound ≤ int64_max
  pub lower_readable : rpt.lower_bound ≤ int64_max
  pub claims_readable : All IsReadableClaim rpt.claims

abbrev report_body : ReportSegment → Bytes
report_body rpt =
    encoding rpt.rpt_serial
    ++ (encoding rpt.cp_serial
        ++ (encoding rpt.upper_bound
            ++ (encoding rpt.lower_bound
                ++ (encoding (length rpt.claims) ++ claims_wire rpt.claims))))

decode-report_body :
    (rpt : ReportSegment)
    → IsReadableReport rpt
    → ltp_decode_report_content (report_body rpt) rpt.hdr ≡ some rpt
unfolding ltp_decode_report_content
decode-report_body rpt h =
    let count = encoding (length rpt.claims) ++ claims_wire rpt.claims in
    let lower = encoding rpt.lower_bound ++ count in
    let upper = encoding rpt.upper_bound ++ lower in
    ground (
      arith,
      h.report.few_claims,
      append-nil (claims_wire rpt.claims),
      read_sdnv-encoding rpt.rpt_serial (encoding rpt.cp_serial ++ upper) h.rpt_serial_readable,
      read_sdnv-encoding rpt.cp_serial upper h.cp_serial_readable,
      read_sdnv-encoding rpt.upper_bound lower h.upper_readable,
      read_sdnv-encoding rpt.lower_bound count h.lower_readable,
      read_sdnv-encoding (length rpt.claims) (claims_wire rpt.claims)
          (omega (arith, h.report.few_claims)),
      read_claims-wire rpt.claims [] h.claims_readable,
    )

-- A reception report that the encoder wrote, with a version below 16, no header extensions, all
-- numbers at most INT64_MAX and no more claims than the array holds, is decoded to itself, claims
-- included. (Larger numbers, as the engine id of an engine may be, are written, but refused by the
-- decoder.)
pub decode-encode_report :
    (rpt : ReportSegment) (size body_size : ℕ) {bytes : Bytes}
    → IsReadableReport rpt
    → IsSize size
    → size ≤ body_size
    → ltp_encode_report rpt size ≡ some bytes
    → (body : Bytes) × (ltp_decode_segment bytes body_size ≡ some (rpt.hdr, body))
      × (ltp_decode_report_content body rpt.hdr ≡ some rpt)
decode-encode_report rpt size body_size h small room e =
    let (same, fits) = Encodes-eq-some size (ltp_encode_report-Encodes rpt h.report) small e in
    let split = length-append (header_wire rpt.hdr) (report_body rpt) in
    (
      report_body rpt,
      rw same (decode-header rpt.hdr (report_body rpt) body_size h.header (omega arith)),
      decode-report_body rpt h,
    )

-- A report acknowledgment is decoded to itself.
decode-encode_report_ack :
    (ack : ReportAckSegment) (size body_size : ℕ) {bytes : Bytes}
    → IsReadable ack.hdr
    → ack.rpt_serial ≤ int64_max
    → IsSize size
    → size ≤ body_size
    → ltp_encode_report_ack ack size ≡ some bytes
    → (body : Bytes) × (ltp_decode_segment bytes body_size ≡ some (ack.hdr, body))
      × (ltp_decode_report_ack_content body ack.hdr ≡ some ack)
decode-encode_report_ack ack size body_size h serial small room e =
    let (same, fits) =
      Encodes-eq-some size (ltp_encode_report_ack-Encodes ack h.header (omega arith)) small e in
    let split = length-append (header_wire ack.hdr) (encoding ack.rpt_serial) in
    (
      encoding ack.rpt_serial,
      rw same (decode-header ack.hdr (encoding ack.rpt_serial) body_size h (omega arith)),
      unfold ltp_decode_report_ack_content in
          ground (
            arith,
            append-nil (encoding ack.rpt_serial),
            read_sdnv-encoding ack.rpt_serial [] serial,
          ),
    )

-- A cancel segment is decoded to itself.
decode-encode_cancel :
    (cancel : CancelSegment) (size body_size : ℕ) {bytes : Bytes}
    → IsReadable cancel.hdr
    → IsSize size
    → size ≤ body_size
    → ltp_encode_cancel cancel size ≡ some bytes
    → (body : Bytes) × (ltp_decode_segment bytes body_size ≡ some (cancel.hdr, body))
      × (ltp_decode_cancel_content body cancel.hdr ≡ some cancel)
decode-encode_cancel cancel size body_size h small room e =
    let (same, fits) = Encodes-eq-some size (ltp_encode_cancel-Encodes cancel h.header) small e in
    let split = length-append (header_wire cancel.hdr) (cancel.reason ∷ []) in
    (
      cancel.reason ∷ [],
      rw same (decode-header cancel.hdr (cancel.reason ∷ []) body_size h (omega arith)),
      unfold ltp_decode_cancel_content in refl,
    )

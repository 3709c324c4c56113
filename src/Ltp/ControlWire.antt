-- ===== src/Ltp/ControlWire.antt =====
-- The wire format of reports, report acknowledgments and cancel segments, and their encoders
-- against it.
use ion_dtn_terrestrial.Prelude.{ℕ, ◌≤◌, List, [], ◌∷◌, ◌++◌, length, arith, All}
use ion_dtn_terrestrial.Prelude.Bits.{Bytes}
use ion_dtn_terrestrial.Buffer.{
  Encodes, Writes, put-Writes, return-Writes, then-Writes, Encodes-Writes,
}
use ion_dtn_terrestrial.Sdnv.{IsU64}
use ion_dtn_terrestrial.Sdnv.Encode.{encoding}
use ion_dtn_terrestrial.Ltp.Types.{
  Claim, ReportSegment, ReportAckSegment, CancelSegment, max_claims,
}
use ion_dtn_terrestrial.Ltp.Encode.{
  put_claims, ltp_encode_report, ltp_encode_report_ack, put_byte, ltp_encode_cancel,
}
use ion_dtn_terrestrial.Ltp.Wire.{IsHeader, header_wire, put_sdnv-Writes, header-Encodes}

abbrev pub IsClaim : Claim → Type 0
IsClaim c = IsU64 c.offset × IsU64 c.len

pub record IsReport (rpt : ReportSegment) : Type 0 where
  pub header : IsHeader rpt.hdr
  pub rpt_serial_fits : IsU64 rpt.rpt_serial
  pub cp_serial_fits : IsU64 rpt.cp_serial
  pub upper_fits : IsU64 rpt.upper_bound
  pub lower_fits : IsU64 rpt.lower_bound
  pub few_claims : length rpt.claims ≤ max_claims
  pub claims_fit : All IsClaim rpt.claims

abbrev pub claims_wire : List Claim → Bytes
claims_wire [] = []
claims_wire (c ∷ claims) = encoding c.offset ++ (encoding c.len ++ claims_wire claims)

abbrev pub report_wire : ReportSegment → Bytes
report_wire rpt =
    header_wire rpt.hdr
    ++ (encoding rpt.rpt_serial
        ++ (encoding rpt.cp_serial
            ++ (encoding rpt.upper_bound
                ++ (encoding rpt.lower_bound
                    ++ (encoding (length rpt.claims) ++ claims_wire rpt.claims)))))

put_claims-Writes :
    (claims : List Claim) → All IsClaim claims → Writes (put_claims claims) (claims_wire claims)
unfolding put_claims
put_claims-Writes [] h = return-Writes
put_claims-Writes (c ∷ claims) ((offset_fits, len_fits), h) =
    then-Writes (put_sdnv-Writes _ offset_fits)
      (then-Writes (put_sdnv-Writes _ len_fits) (put_claims-Writes claims h))

-- The encoder of a report writes the wire format exactly when it fits.
pub ltp_encode_report-Encodes :
    (rpt : ReportSegment) → IsReport rpt → Encodes (ltp_encode_report rpt) (report_wire rpt)
unfolding ltp_encode_report
ltp_encode_report-Encodes rpt h = Encodes-Writes (
    then-Writes (put-Writes (header-Encodes rpt.hdr h.header)) (
      then-Writes (put_sdnv-Writes _ h.rpt_serial_fits) (
        then-Writes (put_sdnv-Writes _ h.cp_serial_fits) (
          then-Writes (put_sdnv-Writes _ h.upper_fits) (
            then-Writes (put_sdnv-Writes _ h.lower_fits) (
              then-Writes (put_sdnv-Writes (length rpt.claims) (omega (arith, h.few_claims)))
                (put_claims-Writes rpt.claims h.claims_fit)))))))

abbrev pub report_ack_wire : ReportAckSegment → Bytes
report_ack_wire ack = header_wire ack.hdr ++ encoding ack.rpt_serial

-- The encoder of a report acknowledgment writes the wire format exactly when it fits.
pub ltp_encode_report_ack-Encodes :
    (ack : ReportAckSegment)
    → IsHeader ack.hdr
    → IsU64 ack.rpt_serial
    → Encodes (ltp_encode_report_ack ack) (report_ack_wire ack)
unfolding ltp_encode_report_ack
ltp_encode_report_ack-Encodes ack h serial_fits =
    Encodes-Writes
      (then-Writes (put-Writes (header-Encodes ack.hdr h)) (put_sdnv-Writes _ serial_fits))

abbrev pub cancel_wire : CancelSegment → Bytes
cancel_wire cancel = header_wire cancel.hdr ++ (cancel.reason ∷ [])

put_byte-Writes : (byte : ℕ) → Writes (put_byte byte) (byte ∷ [])
unfolding put_byte
put_byte-Writes byte = record { at = λ out n size room. ground arith }

-- The encoder of a cancel segment writes the wire format exactly when it fits.
pub ltp_encode_cancel-Encodes :
    (cancel : CancelSegment)
    → IsHeader cancel.hdr
    → Encodes (ltp_encode_cancel cancel) (cancel_wire cancel)
unfolding ltp_encode_cancel
ltp_encode_cancel-Encodes cancel h =
    Encodes-Writes
      (then-Writes (put-Writes (header-Encodes cancel.hdr h)) (put_byte-Writes cancel.reason))

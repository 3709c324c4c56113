-- ===== src/Ltp/Engine/Genuine.antt =====
-- `ltp_process_segment` on a buffer that a fault-free sender wrote.
use ion_dtn_terrestrial.Prelude.{ℕ, ◌≤◌, Option-cases, length, some, ◌≡◌, inl, inr}
use ion_dtn_terrestrial.Prelude.Bits.{Bytes}
use ion_dtn_terrestrial.Ltp.Types.{
  SegType, red_data, red_data_cp, red_data_eorp_cp, report, report_ack, cancel_by_sender,
  cancel_ack_sender, cancel_by_recvr, cancel_ack_recvr, green_data, green_data_eob, SegmentHdr,
  DataSegment, max_block_size, max_segment_buf,
}
use ion_dtn_terrestrial.Ltp.Encode.{ltp_encode_cancel}
use ion_dtn_terrestrial.Ltp.Decode.{
  ltp_decode_segment, ltp_decode_data_content, ltp_decode_report_ack_content,
  ltp_decode_cancel_content,
}
use ion_dtn_terrestrial.Ltp.Engine.State.{Timespec, report_timer, cancel_timer, Engine, Link}
use ion_dtn_terrestrial.Ltp.Engine.Import.{is_session, find_or_create}
use ion_dtn_terrestrial.Ltp.Engine.Reassembly.{PartOf}
use ion_dtn_terrestrial.Ltp.Engine.Receive.{process_data, own_header}
use ion_dtn_terrestrial.Ltp.Engine.Process.{
  process_report_ack, process_cancel_by_sender, process_cancel_by_recvr, is_numbered_export,
  dispatch, ltp_process_segment,
}
use ion_dtn_terrestrial.Ltp.Engine.Frame.{
  SameImports-trans, transmit-SameImports, cancel_timer-SameImports, close_export-SameImports,
  process_report-SameImports,
}
use ion_dtn_terrestrial.Ltp.Engine.Delivery.{Sound, Sound-SameImports}
use ion_dtn_terrestrial.Ltp.Engine.Reception.{
  find_or_create-Found, close_import-Sound, take_data-Sound,
}

module _ (blocks : ℕ → ℕ → Bytes)
    (small : (id number : ℕ) → length (blocks id number) ≤ max_block_size) where
  -- Every data segment that this buffer holds is a part of the block of its sender and session.
  abbrev pub IsGenuine : Bytes → Type 0
  IsGenuine buf =
      (hdr : SegmentHdr) (body : Bytes) (dseg : DataSegment)
      → ltp_decode_segment buf max_segment_buf ≡ some (hdr, body)
      → ltp_decode_data_content body hdr ≡ some dseg
      → PartOf (blocks hdr.sender_engine_id hdr.session_number) dseg

  process_data-Sound :
      (link : Link) (now : Timespec) (hdr : SegmentHdr) (body : Bytes) (eng : Engine)
      → ((dseg : DataSegment)
          → ltp_decode_data_content body hdr ≡ some dseg
          → PartOf (blocks hdr.sender_engine_id hdr.session_number) dseg)
      → Sound blocks eng
      → Sound blocks (process_data link now hdr body eng).0
  unfolding process_data
  process_data-Sound link now hdr body eng genuine h =
      elim (Option-cases (ltp_decode_data_content body hdr)) [
        | inl refused ↦ rw (refused, process_data) h
        | inr (dseg, decoded) ↦
            rw (decoded, process_data)
              (elim (Option-cases (find_or_create hdr eng.import_sessions)) [
                | inl full ↦ rw full h
                | inr ((slot, sess), found) ↦ rw found (
                    take_data-Sound blocks small link now hdr dseg slot sess eng
                      (genuine dseg decoded)
                      (find_or_create-Found blocks hdr eng.import_sessions {slot = slot}
                        {sess = sess} h.sessions found)
                      h)
              ])
      ]

  process_report_ack-Sound :
      (hdr : SegmentHdr) (body : Bytes) (eng : Engine)
      → Sound blocks eng
      → Sound blocks (process_report_ack hdr body eng).0
  unfolding process_report_ack
  process_report_ack-Sound hdr body eng h =
      elim (Option-cases (ltp_decode_report_ack_content body hdr)) [
        | inl refused ↦ rw (refused, process_report_ack) h
        | inr (ack, decoded) ↦
            rw (decoded, process_report_ack)
              (Sound-SameImports blocks
                (cancel_timer-SameImports report_timer hdr.session_number ack.rpt_serial eng) h)
      ]

  process_cancel_by_sender-Sound :
      (link : Link) (hdr : SegmentHdr) (body : Bytes) (eng : Engine)
      → Sound blocks eng
      → Sound blocks (process_cancel_by_sender link hdr body eng).0
  unfolding process_cancel_by_sender
  process_cancel_by_sender-Sound link hdr body eng h =
      elim (Option-cases (ltp_decode_cancel_content body hdr)) [
        | inl refused ↦ rw (refused, process_cancel_by_sender) h
        | inr (cancel, decoded) ↦
            rw (decoded, process_cancel_by_sender)
              (close_import-Sound blocks _ _ (
                Sound-SameImports blocks
                  (transmit-SameImports link
                    (ltp_encode_cancel
                      (record {
                        hdr = own_header eng cancel_ack_sender hdr.session_number;
                        reason = 0;
                      })
                      max_segment_buf)
                    eng)
                  h))
      ]

  process_cancel_by_recvr-Sound :
      (link : Link) (hdr : SegmentHdr) (body : Bytes) (eng : Engine)
      → Sound blocks eng
      → Sound blocks (process_cancel_by_recvr link hdr body eng).0
  unfolding process_cancel_by_recvr
  process_cancel_by_recvr-Sound link hdr body eng h =
      elim (Option-cases (ltp_decode_cancel_content body hdr)) [
        | inl refused ↦ rw (refused, process_cancel_by_recvr) h
        | inr (cancel, decoded) ↦
            rw (decoded, process_cancel_by_recvr)
              (Sound-SameImports blocks
                (SameImports-trans
                  (transmit-SameImports link
                    (ltp_encode_cancel
                      (record {
                        hdr = own_header eng cancel_ack_recvr hdr.session_number;
                        reason = 0;
                      })
                      max_segment_buf)
                    eng)
                  (close_export-SameImports (is_numbered_export hdr.session_number) _))
                h)
      ]

  dispatch-Sound :
      (type : SegType) (link : Link) (now : Timespec) (hdr : SegmentHdr) (body : Bytes)
      (eng : Engine)
      → ((dseg : DataSegment)
          → ltp_decode_data_content body hdr ≡ some dseg
          → PartOf (blocks hdr.sender_engine_id hdr.session_number) dseg)
      → Sound blocks eng
      → Sound blocks (dispatch type link now hdr body eng).0
  unfolding dispatch
  dispatch-Sound red_data link now hdr body eng g h = process_data-Sound link now hdr body eng g h
  dispatch-Sound red_data_cp link now hdr body eng g h =
      process_data-Sound link now hdr body eng g h
  dispatch-Sound red_data_eorp_cp link now hdr body eng g h =
      process_data-Sound link now hdr body eng g h
  dispatch-Sound report link now hdr body eng g h =
      Sound-SameImports blocks (process_report-SameImports link now hdr body eng) h
  dispatch-Sound report_ack link now hdr body eng g h = process_report_ack-Sound hdr body eng h
  dispatch-Sound cancel_by_sender link now hdr body eng g h =
      process_cancel_by_sender-Sound link hdr body eng h
  dispatch-Sound cancel_ack_sender link now hdr body eng g h =
      Sound-SameImports blocks
        (SameImports-trans (close_export-SameImports (is_numbered_export hdr.session_number) eng)
          (cancel_timer-SameImports cancel_timer hdr.session_number 0 _))
        h
  dispatch-Sound cancel_by_recvr link now hdr body eng g h =
      process_cancel_by_recvr-Sound link hdr body eng h
  dispatch-Sound cancel_ack_recvr link now hdr body eng g h =
      Sound-SameImports blocks (cancel_timer-SameImports cancel_timer hdr.session_number 0 _)
        (close_import-Sound blocks (is_session hdr.sender_engine_id hdr.session_number) eng h)
  dispatch-Sound green_data link now hdr body eng g h = h
  dispatch-Sound green_data_eob link now hdr body eng g h = h

  pub process_segment-Sound :
      (link : Link) (now : Timespec) (buf : Bytes) (eng : Engine)
      → IsGenuine buf
      → Sound blocks eng
      → Sound blocks (ltp_process_segment link now buf eng).0
  unfolding ltp_process_segment
  process_segment-Sound link now buf eng genuine h =
      elim (Option-cases (ltp_decode_segment buf max_segment_buf)) [
        | inl refused ↦ rw (refused, ltp_process_segment) h
        | inr ((hdr, body), decoded) ↦
            rw (decoded, ltp_process_segment)
              (dispatch-Sound hdr.type link now hdr body _
                (λ dseg e. genuine hdr body dseg decoded e)
                (record { sessions = h.sessions; deliveries = h.deliveries }))
      ]

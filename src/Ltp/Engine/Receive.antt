-- ===== src/Ltp/Engine/Receive.antt =====
-- `ltp_process_segment` on a data segment. The Boolean says whether the C function returned 0.
use ion_dtn_terrestrial.Prelude.{
  ℕ, Bool, true, false, not, ◌&&◌, ltb, if◌then◌else◌, [], ◌∷◌, ◌++◌, none, some,
}
use ion_dtn_terrestrial.Prelude.Bits.{Bytes}
use ion_dtn_terrestrial.Ltp.Types.{
  SegType, report, SegmentHdr, DataSegment, ReportSegment, max_segment_buf,
}
use ion_dtn_terrestrial.Ltp.Encode.{is_checkpoint, ltp_encode_report}
use ion_dtn_terrestrial.Ltp.Decode.{ltp_decode_data_content}
use ion_dtn_terrestrial.Ltp.RecvMap.{range_end}
use ion_dtn_terrestrial.Ltp.Engine.State.{
  Timespec, report_timer, ImportSession, Delivery, Engine, Link, inc32, inc64, set, bytes_of,
}
use ion_dtn_terrestrial.Ltp.Engine.Timers.{ltp_start_timer}
use ion_dtn_terrestrial.Ltp.Engine.Output.{transmit}
use ion_dtn_terrestrial.Ltp.Engine.Import.{find_or_create, receive_data}

abbrev pub own_header : Engine → SegType → ℕ → SegmentHdr
own_header eng type session_number = record {
  version = 0;
  type = type;
  sender_engine_id = eng.local_engine_id;
  session_number = session_number;
  hdr_ext_count = 0;
  trailer_ext_count = 0;
}

-- The reception report that answers the checkpoint `dseg`.
abbrev pub report_of : Engine → DataSegment → ImportSession → ReportSegment
report_of eng dseg sess = record {
  hdr = own_header eng report dseg.hdr.session_number;
  rpt_serial = sess.next_rpt_serial;
  cp_serial = dseg.cp_serial;
  upper_bound = if ltb 0 sess.block_len then sess.block_len else range_end dseg.offset dseg.len;
  lower_bound = 0;
  claims = sess.recv_map;
}

-- "If this is a checkpoint, generate a reception report".
unfoldable pub answer_checkpoint :
    Link → Timespec → DataSegment → ImportSession → Engine → Engine × ImportSession
unfolding transmit ltp_start_timer
answer_checkpoint link now dseg sess eng =
    let rpt = report_of eng dseg sess in
    let sent = transmit link (ltp_encode_report rpt max_segment_buf) eng in
    if is_checkpoint dseg.hdr.type
    then (
      ltp_start_timer now report_timer sess.engine_id sess.session_number rpt.rpt_serial sent,
      record sess { next_rpt_serial = inc64 sess.next_rpt_serial },
    )
    else (eng, sess)

-- "Deliver block if complete".
unfoldable pub deliver : ImportSession → Engine → Engine × ImportSession
deliver sess eng =
    let delivery : Delivery = record {
      block = bytes_of sess.block_len sess.block_data;
      remote_engine_id = sess.engine_id;
    } in
    if sess.complete && not sess.delivered
    then (
      record eng {
        deliveries = eng.deliveries ++ (delivery ∷ []);
        blocks_delivered = inc32 eng.blocks_delivered;
      },
      record sess { delivered = true; active = false },
    )
    else (eng, sess)

abbrev pub store_import : ℕ → ImportSession → Engine → Engine
store_import slot sess eng = record eng { import_sessions = set eng.import_sessions slot sess }

-- A session that was created stays, also where the segment is then refused.
unfoldable pub take_data :
    Link → Timespec → DataSegment → ℕ × ImportSession → Engine → Engine × Bool
unfolding receive_data answer_checkpoint deliver
take_data link now dseg (slot, sess) eng = elim (receive_data dseg sess) [
  | none ↦ (store_import slot sess eng, false)
  | some sess1 ↦
      (let (eng2, sess2) = answer_checkpoint link now dseg sess1 eng in
        let (eng3, sess3) = deliver sess2 eng2 in (store_import slot sess3 eng3, true))
]

unfoldable pub process_data : Link → Timespec → SegmentHdr → Bytes → Engine → Engine × Bool
unfolding find_or_create take_data
process_data link now hdr body eng = elim (ltp_decode_data_content body hdr) [
  | none ↦ (eng, false)
  | some dseg ↦ elim (find_or_create hdr eng.import_sessions) [
    | none ↦ (eng, false)
    | some found ↦ take_data link now dseg found eng
  ]
]

-- ===== src/Ltp/Engine/Process.antt =====
-- `ltp_process_segment`, one function for each kind of segment, and `ltp_cancel_session`. The
-- Boolean says whether the C function returned 0.
use ion_dtn_terrestrial.Prelude.{
  ℕ, ◌+◌, ◌-◌, ◌%◌, ◌^◌, Bool, true, false, ◌&&◌, ◌==◌, ltb, if◌then◌else◌, length, Option, none,
  some, get_elem?,
}
use ion_dtn_terrestrial.Prelude.Bits.{Bytes}
use ion_dtn_terrestrial.Ltp.Types.{
  SegType, red_data, red_data_cp, red_data_eorp_cp, report, report_ack, cancel_by_sender,
  cancel_ack_sender, cancel_by_recvr, cancel_ack_recvr, SegmentHdr, ReportSegment, ReportAckSegment,
  CancelSegment, max_segment_buf,
}
use ion_dtn_terrestrial.Ltp.Encode.{ltp_encode_report_ack, ltp_encode_cancel}
use ion_dtn_terrestrial.Ltp.Decode.{
  ltp_decode_segment, ltp_decode_report_content, ltp_decode_report_ack_content,
  ltp_decode_cancel_content,
}
use ion_dtn_terrestrial.Ltp.Engine.State.{
  Timespec, checkpoint_timer, report_timer, cancel_timer, ExportSession, ImportSession, Engine,
  Link, inc32, find_index, set,
}
use ion_dtn_terrestrial.Ltp.Engine.Timers.{ltp_start_timer, ltp_cancel_timer}
use ion_dtn_terrestrial.Ltp.Engine.Output.{ltp_paced_write, transmit}
use ion_dtn_terrestrial.Ltp.Engine.Import.{is_session, covers_block}
use ion_dtn_terrestrial.Ltp.Engine.Export.{ltp_retransmit_missing}
use ion_dtn_terrestrial.Ltp.Engine.Receive.{own_header, process_data}

-- Completion, or the retransmission of what is missing under a new checkpoint timer.
unfoldable pub settle_report :
    Link → Timespec → ReportSegment → ExportSession → Engine → Engine × ExportSession
unfolding covers_block ltp_retransmit_missing
settle_report link now rpt sess eng =
    let (eng1, sess1) = ltp_retransmit_missing link sess rpt eng in
    let restarted =
      ltp_start_timer now checkpoint_timer sess1.engine_id sess1.session_number
        ((sess1.next_cp_serial + 2 ^ 64 - 1) % 2 ^ 64) eng1 in
    if covers_block sess.block_len rpt.claims
    then (
      record eng { sessions_completed = inc32 eng.sessions_completed },
      record sess { completed = true },
    )
    else (restarted, sess1)

-- An active session of this engine with that number.
abbrev pub is_own_session : Engine → ℕ → ExportSession → Bool
is_own_session eng session_number s =
    s.active && (s.engine_id == eng.local_engine_id && s.session_number == session_number)

abbrev pub report_ack_of : Engine → ReportSegment → ReportAckSegment
report_ack_of eng rpt = record {
  hdr = own_header eng report_ack rpt.hdr.session_number;
  rpt_serial = rpt.rpt_serial;
}

unfoldable pub take_report :
    Link → Timespec → ReportSegment → ℕ → ExportSession → Engine → Engine × Bool
unfolding settle_report ltp_cancel_timer
take_report link now rpt slot sess eng =
    let eng1 = transmit link (ltp_encode_report_ack (report_ack_of eng rpt) max_segment_buf) eng in
    let eng2 = ltp_cancel_timer checkpoint_timer rpt.hdr.session_number rpt.cp_serial eng1 in
    let (eng3, sess') = settle_report link now rpt sess eng2 in
    (record eng3 { export_sessions = set eng3.export_sessions slot sess' }, true)

unfoldable pub process_report : Link → Timespec → SegmentHdr → Bytes → Engine → Engine × Bool
unfolding take_report find_index
process_report link now hdr body eng = elim (ltp_decode_report_content body hdr) [
  | none ↦ (eng, false)
  | some rpt ↦ elim (find_index (is_own_session eng hdr.session_number) eng.export_sessions) [
    | none ↦ (eng, false)
    | some slot ↦ elim (get_elem? eng.export_sessions slot) [
      | none ↦ (eng, false)
      | some sess ↦ take_report link now rpt slot sess eng
    ]
  ]
]

unfoldable pub process_report_ack : SegmentHdr → Bytes → Engine → Engine × Bool
unfolding ltp_cancel_timer
process_report_ack hdr body eng = elim (ltp_decode_report_ack_content body hdr) [
  | none ↦ (eng, false)
  | some ack ↦ (ltp_cancel_timer report_timer hdr.session_number ack.rpt_serial eng, true)
]

-- The first session that passes the test is closed and counted.
unfoldable pub close_import : (ImportSession → Bool) → Engine → Engine
unfolding find_index
close_import test eng = elim (find_index test eng.import_sessions) [
  | none ↦ eng
  | some slot ↦ elim (get_elem? eng.import_sessions slot) [
    | none ↦ eng
    | some sess ↦ record eng {
      import_sessions = set eng.import_sessions slot (record sess { active = false });
      sessions_cancelled = inc32 eng.sessions_cancelled;
    }
  ]
]

unfoldable pub close_export : (ExportSession → Bool) → Engine → Engine
unfolding find_index
close_export test eng = elim (find_index test eng.export_sessions) [
  | none ↦ eng
  | some slot ↦ elim (get_elem? eng.export_sessions slot) [
    | none ↦ eng
    | some sess ↦ record eng {
      export_sessions =
          set eng.export_sessions slot (record sess { active = false; cancelled = true });
      sessions_cancelled = inc32 eng.sessions_cancelled;
    }
  ]
]

abbrev pub is_numbered_export : ℕ → ExportSession → Bool
is_numbered_export session_number s = s.active && s.session_number == session_number

abbrev acknowledge : Link → SegType → ℕ → Engine → Engine
acknowledge link type session_number eng =
    transmit link
      (ltp_encode_cancel (record { hdr = own_header eng type session_number; reason = 0 })
        max_segment_buf)
      eng

unfoldable pub process_cancel_by_sender : Link → SegmentHdr → Bytes → Engine → Engine × Bool
unfolding close_import transmit
process_cancel_by_sender link hdr body eng = elim (ltp_decode_cancel_content body hdr) [
  | none ↦ (eng, false)
  | some cancel ↦ (
    close_import (is_session hdr.sender_engine_id hdr.session_number)
        (acknowledge link cancel_ack_sender hdr.session_number eng),
    true,
  )
]

unfoldable pub process_cancel_by_recvr : Link → SegmentHdr → Bytes → Engine → Engine × Bool
unfolding close_export transmit
process_cancel_by_recvr link hdr body eng = elim (ltp_decode_cancel_content body hdr) [
  | none ↦ (eng, false)
  | some cancel ↦ (
    close_export (is_numbered_export hdr.session_number)
        (acknowledge link cancel_ack_recvr hdr.session_number eng),
    true,
  )
]

-- The branches on the type. Green data end in "Unknown segment type".
unfoldable pub dispatch : SegType → Link → Timespec → SegmentHdr → Bytes → Engine → Engine × Bool
unfolding process_data process_report process_report_ack process_cancel_by_sender
    process_cancel_by_recvr
dispatch red_data link now hdr body eng = process_data link now hdr body eng
dispatch red_data_cp link now hdr body eng = process_data link now hdr body eng
dispatch red_data_eorp_cp link now hdr body eng = process_data link now hdr body eng
dispatch report link now hdr body eng = process_report link now hdr body eng
dispatch report_ack link now hdr body eng = process_report_ack hdr body eng
dispatch cancel_by_sender link now hdr body eng = process_cancel_by_sender link hdr body eng
dispatch cancel_ack_sender link now hdr body eng = (
  ltp_cancel_timer cancel_timer hdr.session_number 0
      (close_export (is_numbered_export hdr.session_number) eng),
  true,
)
dispatch cancel_by_recvr link now hdr body eng = process_cancel_by_recvr link hdr body eng
dispatch cancel_ack_recvr link now hdr body eng = (
  ltp_cancel_timer cancel_timer hdr.session_number 0
      (close_import (is_session hdr.sender_engine_id hdr.session_number) eng),
  true,
)
dispatch _ link now hdr body eng = (eng, false)

-- `now` is the time that `clock_gettime` gives during the call.
unfoldable pub ltp_process_segment : Link → Timespec → Bytes → Engine → Engine × Bool
unfolding dispatch
ltp_process_segment link now buf eng = elim (ltp_decode_segment buf max_segment_buf) [
  | none ↦ (eng, false)
  | some (hdr, body) ↦
      dispatch hdr.type link now hdr body
        (record eng { segments_received = inc32 eng.segments_received })
]

-- A segment that is written and not counted.
unfoldable pub send_uncounted : Link → Option Bytes → Engine → Engine
unfolding ltp_paced_write
send_uncounted link none eng = eng
send_uncounted link (some bytes) eng =
    let sent = (ltp_paced_write link bytes eng).0 in
    if ltb 0 (length bytes) && link.fd_valid then sent else eng

-- The session stays active until the cancellation is acknowledged.
unfoldable pub ltp_cancel_session : Link → Timespec → ℕ → Engine → Engine × Bool
unfolding send_uncounted ltp_start_timer find_index
ltp_cancel_session link now session_number eng =
    elim (find_index (is_numbered_export session_number) eng.export_sessions) [
      | none ↦ (eng, false)
      | some slot ↦ elim (get_elem? eng.export_sessions slot) [
        | none ↦ (eng, false)
        | some sess ↦
            (let cancel : CancelSegment = record {
              hdr = own_header eng cancel_by_sender session_number;
              reason = 0;
            } in
              let sent = send_uncounted link (ltp_encode_cancel cancel max_segment_buf) eng in
              let started = ltp_start_timer now cancel_timer sess.engine_id session_number 0 sent in
              (
                record started {
                  export_sessions =
                      set started.export_sessions slot (record sess { cancelled = true });
                },
                true,
              ))
      ]
    ]

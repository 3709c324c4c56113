-- ===== src/Ltp/Engine/Frame.antt =====
-- What the engine's functions leave alone: those that send, and those that run timers and export
-- sessions, do not touch the import sessions and deliver nothing.
use ion_dtn_terrestrial.Prelude.{
  ℕ, Bool, List, [], ◌∷◌, Option, none, some, ◌≡◌, ◌∙◌, refl, arith, get_elem?, Option-cases, inl,
  inr,
}
use ion_dtn_terrestrial.Prelude.Bits.{Bytes}
use ion_dtn_terrestrial.Ltp.Types.{DataSegment, ReportSegment, SegmentHdr, max_segment_buf}
use ion_dtn_terrestrial.Ltp.Decode.{ltp_decode_report_content}
use ion_dtn_terrestrial.Ltp.Encode.{ltp_encode_report_ack, ltp_encode_data_segment}
use ion_dtn_terrestrial.Ltp.Engine.State.{
  Timespec, TimerType, checkpoint_timer, ExportSession, Engine, Link, find_index,
}
use ion_dtn_terrestrial.Ltp.Engine.Timers.{ltp_start_timer, ltp_cancel_timer}
use ion_dtn_terrestrial.Ltp.Engine.Output.{ltp_paced_write, transmit}
use ion_dtn_terrestrial.Ltp.Engine.Export.{
  transmit_all, ltp_retransmit_missing, missing_ranges, missing_chunks, retransmissions,
  retransmit_mtu,
}
use ion_dtn_terrestrial.Ltp.Engine.Process.{
  report_ack_of, is_own_session, close_export, settle_report, take_report, process_report,
}

-- The import sessions and the deliveries of the two engines are the same.
pub record SameImports (before after : Engine) : Type 0 where
  pub sessions : after.import_sessions ≡ before.import_sessions
  pub deliveries : after.deliveries ≡ before.deliveries

pub SameImports-refl : (eng : Engine) → SameImports eng eng
SameImports-refl eng = record { sessions = refl; deliveries = refl }

pub SameImports-trans : {a b c : Engine} → SameImports a b → SameImports b c → SameImports a c
SameImports-trans p q = record {
  sessions = q.sessions ∙ p.sessions;
  deliveries = q.deliveries ∙ p.deliveries;
}

pub paced_write-SameImports :
    (link : Link) (bytes : Bytes) (eng : Engine)
    → SameImports eng (ltp_paced_write link bytes eng).0
unfolding ltp_paced_write
paced_write-SameImports link bytes eng = ground arith

pub transmit-SameImports :
    (link : Link) (bytes : Option Bytes) (eng : Engine) → SameImports eng (transmit link bytes eng)
unfolding transmit
transmit-SameImports link none eng = SameImports-refl eng
transmit-SameImports link (some bytes) eng =
    let same = paced_write-SameImports link bytes eng in
    ground (arith, same.sessions, same.deliveries)

transmit_all-SameImports :
    (link : Link) (segments : List DataSegment) (eng : Engine)
    → SameImports eng (transmit_all link segments eng)
unfolding transmit_all
transmit_all-SameImports link [] eng = SameImports-refl eng
transmit_all-SameImports link (seg ∷ segments) eng =
    SameImports-trans (transmit-SameImports link (ltp_encode_data_segment seg max_segment_buf) eng)
      (transmit_all-SameImports link segments _)

pub start_timer-SameImports :
    (now : Timespec) (type : TimerType) (engine_id number serial : ℕ) (eng : Engine)
    → SameImports eng (ltp_start_timer now type engine_id number serial eng)
unfolding ltp_start_timer
start_timer-SameImports now type engine_id number serial eng = record {
  sessions = refl;
  deliveries = refl;
}

pub cancel_timer-SameImports :
    (type : TimerType) (number serial : ℕ) (eng : Engine)
    → SameImports eng (ltp_cancel_timer type number serial eng)
unfolding ltp_cancel_timer
cancel_timer-SameImports type number serial eng = record { sessions = refl; deliveries = refl }

pub close_export-SameImports :
    (test : ExportSession → Bool) (eng : Engine) → SameImports eng (close_export test eng)
unfolding close_export
close_export-SameImports test eng = ground arith

retransmit_missing-SameImports :
    (link : Link) (sess : ExportSession) (rpt : ReportSegment) (eng : Engine)
    → SameImports eng (ltp_retransmit_missing link sess rpt eng).0
unfolding ltp_retransmit_missing
retransmit_missing-SameImports link sess rpt eng =
    let same =
      transmit_all-SameImports link
        (retransmissions sess
          (missing_chunks (retransmit_mtu eng sess) (missing_ranges sess.block_len rpt)))
        eng in
    ground (arith, same.sessions, same.deliveries)

settle_report-SameImports :
    (link : Link) (now : Timespec) (rpt : ReportSegment) (sess : ExportSession) (eng : Engine)
    → SameImports eng (settle_report link now rpt sess eng).0
unfolding settle_report ltp_start_timer
settle_report-SameImports link now rpt sess eng =
    let same = retransmit_missing-SameImports link sess rpt eng in
    ground (arith, same.sessions, same.deliveries)

take_report-SameImports :
    (link : Link) (now : Timespec) (rpt : ReportSegment) (slot : ℕ) (sess : ExportSession)
    (eng : Engine)
    → SameImports eng (take_report link now rpt slot sess eng).0
unfolding take_report
take_report-SameImports link now rpt slot sess eng =
    let same =
      SameImports-trans
        (transmit-SameImports link (ltp_encode_report_ack (report_ack_of eng rpt) max_segment_buf)
          eng)
        (SameImports-trans
          (cancel_timer-SameImports checkpoint_timer rpt.hdr.session_number rpt.cp_serial _)
          (settle_report-SameImports link now rpt sess _)) in
    record { sessions = same.sessions; deliveries = same.deliveries }

pub process_report-SameImports :
    (link : Link) (now : Timespec) (hdr : SegmentHdr) (body : Bytes) (eng : Engine)
    → SameImports eng (process_report link now hdr body eng).0
unfolding process_report
process_report-SameImports link now hdr body eng =
    elim (Option-cases (ltp_decode_report_content body hdr)) [
      | inl refused ↦ rw (refused, process_report) (SameImports-refl eng)
      | inr (rpt, decoded) ↦
          rw (decoded, process_report)
            (elim (Option-cases
              (find_index (is_own_session eng hdr.session_number) eng.export_sessions)) [
                | inl unknown ↦ rw unknown (SameImports-refl eng)
                | inr (slot, found) ↦
                    rw found (elim (Option-cases (get_elem? eng.export_sessions slot)) [
                      | inl outside ↦ rw outside (SameImports-refl eng)
                      | inr (sess, there) ↦
                          rw there (take_report-SameImports link now rpt slot sess eng)
                    ])
              ])
    ]

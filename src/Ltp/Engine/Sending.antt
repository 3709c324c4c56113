-- ===== src/Ltp/Engine/Sending.antt =====
-- Sending a block, cancelling a session and retransmission do not touch the import sessions and
-- deliver nothing.
use ion_dtn_terrestrial.Prelude.{
  ℕ, ltb, Bool-cases, Option-cases, List, [], ◌∷◌, length, Option, none, some, ◌≡◌, ◌∙◌, ◌+◌, ◌%◌,
  ◌^◌, inl, inr, arith, get_elem?, not, ◌==◌, fail_if, >>=-eq-some,
}
use ion_dtn_terrestrial.Prelude.Bits.{Bytes}
use ion_dtn_terrestrial.Ltp.Types.{DataSegment, cancel_by_sender, max_segment_buf}
use ion_dtn_terrestrial.Ltp.Encode.{ltp_encode_data_segment, ltp_encode_report, ltp_encode_cancel}
use ion_dtn_terrestrial.Ltp.Engine.State.{
  Timespec, TimerType, checkpoint_timer, report_timer, cancel_timer, ExportSession, Engine, Link,
  find_index, find_first,
}
use ion_dtn_terrestrial.Ltp.Engine.Timers.{ltp_start_timer}
use ion_dtn_terrestrial.Ltp.Engine.Endpoints.{ltp_eid_to_engine_id}
use ion_dtn_terrestrial.Ltp.Engine.Output.{ltp_paced_write}
use ion_dtn_terrestrial.Ltp.Engine.Export.{
  ltp_segment_block, send_segments, start_checkpoint, ltp_send_block,
}
use ion_dtn_terrestrial.Ltp.Engine.Receive.{own_header}
use ion_dtn_terrestrial.Ltp.Engine.Process.{is_numbered_export, send_uncounted, ltp_cancel_session}
use ion_dtn_terrestrial.Ltp.Engine.Fire.{
  is_numbered_import, retransmit, resend_checkpoint, resend_report, resend_cancel, resent_report,
  tail_segment,
}
use ion_dtn_terrestrial.Ltp.Engine.Frame.{
  SameImports, SameImports-refl, SameImports-trans, paced_write-SameImports, transmit-SameImports,
}

segment_block-SameImports :
    (eng : Engine) (id : ℕ) (block : Bytes) {eng' : Engine} {segments : List DataSegment}
    → ltp_segment_block eng id block ≡ some (eng', segments)
    → SameImports eng eng'
unfolding ltp_segment_block
segment_block-SameImports eng id block {eng'} {segments} e =
    let (u, nonempty, e1) = >>=-eq-some (fail_if (length block == 0)) _ e in
    let (v, fits, e2) = >>=-eq-some (fail_if (ltb eng.config.max_block_size (length block))) _ e1 in
    let (slot, free, e3) =
      >>=-eq-some (find_index (λ (s : ExportSession). not s.active) eng.export_sessions) _ e2 in
    record { sessions = cc; deliveries = cc }

send_segments-SameImports :
    (link : Link) (segments : List DataSegment) (eng : Engine)
    → SameImports eng (send_segments link segments eng).0
unfolding send_segments
send_segments-SameImports link [] eng = SameImports-refl eng
send_segments-SameImports link (seg ∷ segments) eng =
    elim (Option-cases (ltp_encode_data_segment seg max_segment_buf)) [
      | inl refused ↦ rw (refused, send_segments) (SameImports-refl eng)
      | inr (bytes, encoded) ↦
          rw (encoded, send_segments)
            (let sent = paced_write-SameImports link bytes eng in
              elim (Bool-cases (ltp_paced_write link bytes eng).1) [
                | inl done ↦
                    rw done (SameImports-trans sent (send_segments-SameImports link segments _))
                | inr failed ↦ rw failed sent
              ])
    ]

start_checkpoint-SameImports :
    (now : Timespec) (eng : Engine) → SameImports eng (start_checkpoint now eng)
unfolding start_checkpoint ltp_start_timer
start_checkpoint-SameImports now eng = ground arith

abbrev counted_sent : List DataSegment → Engine → Engine
counted_sent segments eng = record eng {
  segments_sent = (eng.segments_sent + length segments) % 2 ^ 32;
}

pub send_block-SameImports :
    (link : Link) (now : Timespec) (eid block : Bytes) (eng : Engine)
    → SameImports eng (ltp_send_block link now eid block eng).0
unfolding ltp_send_block
send_block-SameImports link now eid block eng =
    elim (Option-cases (ltp_segment_block eng (ltp_eid_to_engine_id eid) block)) [
      | inl refused ↦ rw (refused, ltp_send_block) (SameImports-refl eng)
      | inr ((eng1, segments), cut) ↦
          rw (cut, ltp_send_block)
            (let cut_same = segment_block-SameImports eng _ block cut in
              let sent =
                SameImports-trans cut_same (send_segments-SameImports link segments eng1) in
              elim (Bool-cases (send_segments link segments eng1).1) [
                | inl failed ↦
                    rw failed (record { sessions = sent.sessions; deliveries = sent.deliveries })
                | inr done ↦
                    let counted = counted_sent segments (send_segments link segments eng1).0 in
                    let started = start_checkpoint-SameImports now counted in
                    rw done (record {
                      sessions = started.sessions ∙ sent.sessions;
                      deliveries = started.deliveries ∙ sent.deliveries;
                    })
              ])
    ]

send_uncounted-SameImports :
    (link : Link) (bytes : Option Bytes) (eng : Engine)
    → SameImports eng (send_uncounted link bytes eng)
unfolding send_uncounted
send_uncounted-SameImports link none eng = SameImports-refl eng
send_uncounted-SameImports link (some bytes) eng =
    let same = paced_write-SameImports link bytes eng in
    ground (arith, same.sessions, same.deliveries)

pub cancel_session-SameImports :
    (link : Link) (now : Timespec) (number : ℕ) (eng : Engine)
    → SameImports eng (ltp_cancel_session link now number eng).0
unfolding ltp_cancel_session ltp_start_timer
cancel_session-SameImports link now number eng =
    elim (Option-cases (find_index (is_numbered_export number) eng.export_sessions)) [
      | inl unknown ↦ rw (unknown, ltp_cancel_session) (SameImports-refl eng)
      | inr (slot, found) ↦
          rw (found, ltp_cancel_session)
            (elim (Option-cases (get_elem? eng.export_sessions slot)) [
              | inl outside ↦ rw outside (SameImports-refl eng)
              | inr (sess, there) ↦
                  let same =
                    send_uncounted-SameImports link
                      (ltp_encode_cancel
                        (record { hdr = own_header eng cancel_by_sender number; reason = 0 })
                        max_segment_buf)
                      eng in
                  rw there (record { sessions = same.sessions; deliveries = same.deliveries })
            ])
    ]

resend_checkpoint-SameImports :
    (link : Link) (number : ℕ) (eng : Engine) → SameImports eng (resend_checkpoint link number eng)
unfolding resend_checkpoint
resend_checkpoint-SameImports link number eng =
    elim (Option-cases (find_index (is_numbered_export number) eng.export_sessions)) [
      | inl unknown ↦ rw (unknown, resend_checkpoint) (SameImports-refl eng)
      | inr (slot, found) ↦
          rw (found, resend_checkpoint)
            (elim (Option-cases (get_elem? eng.export_sessions slot)) [
              | inl outside ↦ rw outside (SameImports-refl eng)
              | inr (sess, there) ↦
                  let same =
                    transmit-SameImports link
                      (ltp_encode_data_segment (tail_segment eng sess) max_segment_buf) _ in
                  rw there (record { sessions = same.sessions; deliveries = same.deliveries })
            ])
    ]

resend_report-SameImports :
    (link : Link) (number serial : ℕ) (eng : Engine)
    → SameImports eng (resend_report link number serial eng)
unfolding resend_report
resend_report-SameImports link number serial eng =
    elim (Option-cases (find_first (is_numbered_import number) eng.import_sessions)) [
      | inl unknown ↦ rw (unknown, resend_report) (SameImports-refl eng)
      | inr (sess, found) ↦
          rw (found, resend_report)
            (transmit-SameImports link
              (ltp_encode_report (resent_report eng serial sess) max_segment_buf) eng)
    ]

pub retransmit-SameImports :
    (type : TimerType) (link : Link) (number serial : ℕ) (eng : Engine)
    → SameImports eng (retransmit type link number serial eng)
unfolding retransmit resend_cancel
retransmit-SameImports checkpoint_timer link number serial eng =
    resend_checkpoint-SameImports link number eng
retransmit-SameImports report_timer link number serial eng =
    resend_report-SameImports link number serial eng
retransmit-SameImports cancel_timer link number serial eng =
    transmit-SameImports link
      (ltp_encode_cancel (record { hdr = own_header eng cancel_by_sender number; reason = 0 })
        max_segment_buf)
      eng

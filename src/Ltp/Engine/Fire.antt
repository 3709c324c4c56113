-- ===== src/Ltp/Engine/Fire.antt =====
-- `ltp_fire_expired_timers`: retransmission with a bounded number of retries.
use ion_dtn_terrestrial.Prelude.{
  ℕ, ◌^◌, ◌||◌, ◌+◌, ◌-◌, Bool, true, false, ◌&&◌, ◌==◌, leb, ltb, if◌then◌else◌, List, [], ◌∷◌,
  none, some, get_elem?,
}
use ion_dtn_terrestrial.Ltp.Types.{
  report, red_data_eorp_cp, cancel_by_sender, DataSegment, ReportSegment, CancelSegment,
  max_segment_buf,
}
use ion_dtn_terrestrial.Ltp.Encode.{ltp_encode_data_segment, ltp_encode_report, ltp_encode_cancel}
use ion_dtn_terrestrial.Ltp.Engine.State.{
  Timespec, TimerType, checkpoint_timer, report_timer, cancel_timer, Timer, ExportSession,
  ImportSession, Engine, Link, inc64, find_index, find_first, set,
}
use ion_dtn_terrestrial.Ltp.Engine.Timers.{add_ms, duration_ms, is_expired}
use ion_dtn_terrestrial.Ltp.Engine.Output.{transmit}
use ion_dtn_terrestrial.Ltp.Engine.Export.{red_segment}
use ion_dtn_terrestrial.Ltp.Engine.Receive.{own_header}
use ion_dtn_terrestrial.Ltp.Engine.Process.{close_export, close_import, is_numbered_export}

abbrev pub is_numbered_import : ℕ → ImportSession → Bool
is_numbered_import session_number s = s.active && s.session_number == session_number

-- "Max retries exceeded": the session of a checkpoint or report timer is closed.
unfoldable pub give_up : TimerType → ℕ → Engine → Engine
unfolding close_export close_import
give_up checkpoint_timer session_number eng = close_export (is_numbered_export session_number) eng
give_up report_timer session_number eng = close_import (is_numbered_import session_number) eng
give_up cancel_timer session_number eng = eng

-- The tail of the block once more, as its end and a new checkpoint.
abbrev pub tail_segment : Engine → ExportSession → DataSegment
tail_segment eng sess =
    let mtu = if sess.segment_mtu == 0 then eng.config.segment_mtu else sess.segment_mtu in
    let offset = if ltb mtu sess.block_len then sess.block_len - mtu else 0 in
    red_segment sess red_data_eorp_cp true offset (sess.block_len - offset)

unfoldable pub resend_checkpoint : Link → ℕ → Engine → Engine
resend_checkpoint link session_number eng =
    elim (find_index (is_numbered_export session_number) eng.export_sessions) [
      | none ↦ eng
      | some slot ↦ elim (get_elem? eng.export_sessions slot) [
        | none ↦ eng
        | some sess ↦
            transmit link (ltp_encode_data_segment (tail_segment eng sess) max_segment_buf)
              (record eng {
                export_sessions =
                    set eng.export_sessions slot
                      (record sess { next_cp_serial = inc64 sess.next_cp_serial });
              })
      ]
    ]

abbrev pub resent_report : Engine → ℕ → ImportSession → ReportSegment
resent_report eng serial sess = record {
  hdr = own_header eng report sess.session_number;
  rpt_serial = serial;
  cp_serial = 0;
  upper_bound = sess.block_len;
  lower_bound = 0;
  claims = sess.recv_map;
}

unfoldable pub resend_report : Link → ℕ → ℕ → Engine → Engine
resend_report link session_number serial eng =
    elim (find_first (is_numbered_import session_number) eng.import_sessions) [
      | none ↦ eng
      | some sess ↦
          transmit link (ltp_encode_report (resent_report eng serial sess) max_segment_buf) eng
    ]

unfoldable pub resend_cancel : Link → ℕ → Engine → Engine
resend_cancel link session_number eng =
    let cancel : CancelSegment = record {
      hdr = own_header eng cancel_by_sender session_number;
      reason = 0;
    } in
    transmit link (ltp_encode_cancel cancel max_segment_buf) eng

-- A retransmission for a timer of this type, session number and serial.
unfoldable pub retransmit : TimerType → Link → ℕ → ℕ → Engine → Engine
unfolding resend_checkpoint resend_report resend_cancel find_index find_first transmit
retransmit checkpoint_timer link session_number serial eng =
    resend_checkpoint link session_number eng
retransmit report_timer link session_number serial eng =
    resend_report link session_number serial eng
retransmit cancel_timer link session_number serial eng = resend_cancel link session_number eng

-- `t->retries >= (int)config.max_retries`: from 2 ^ 31 on that int is negative.
abbrev pub is_last_retry : ℕ → ℕ → Bool
is_last_retry max_retries retries = leb (2 ^ 31) max_retries || leb max_retries retries

-- The body of the loop for one timer: the timer and the engine afterwards, and whether it fired.
-- None of what it calls changes the array of timers.
unfoldable pub fire_one : Link → Timespec → Timer → Engine → Timer × Engine × Bool
unfolding is_expired give_up retransmit add_ms
fire_one link now t eng =
    let retries = t.retries + 1 in
    let stopped = record t { retries = retries; active = false } in
    let restarted = record t {
      retries = retries;
      expiry = add_ms now (duration_ms eng.config.owlt_ms);
    } in
    let given_up = give_up t.type t.session_number eng in
    let resent = retransmit t.type link t.session_number t.serial eng in
    if t.active && is_expired now t
    then (if is_last_retry eng.config.max_retries retries
        then (stopped, given_up, true)
        else (restarted, resent, true))
    else (t, eng, false)

-- The loop over the array: the timers and the engine afterwards, and the number that fired.
unfoldable pub fire_timers : Link → Timespec → List Timer → Engine → List Timer × Engine × ℕ
unfolding fire_one
fire_timers link now [] eng = ([], eng, 0)
fire_timers link now (t ∷ timers) eng =
    let (t', eng1, fired) = fire_one link now t eng in
    let (timers', eng2, count) = fire_timers link now timers eng1 in
    (t' ∷ timers', eng2, if fired then count + 1 else count)

unfoldable pub ltp_fire_expired_timers : Link → Timespec → Engine → Engine × ℕ
unfolding fire_timers
ltp_fire_expired_timers link now eng =
    let (timers, eng', fired) = fire_timers link now eng.timers eng in
    (record eng' { timers = timers }, fired)

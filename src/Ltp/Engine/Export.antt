-- ===== src/Ltp/Engine/Export.antt =====
-- The sending side: segmentation of a block, its transmission, and the retransmission of missing
-- ranges.
use ion_dtn_terrestrial.Prelude.{
  ℕ, zero, suc, ◌+◌, ◌-◌, ◌%◌, ◌^◌, Bool, true, false, not, ◌&&◌, ◌==◌, leb, ltb, if◌then◌else◌,
  List, [], ◌∷◌, ◌++◌, length, drop, Option, none, some, ◌>>=◌, ◌>>◌, fail_if,
}
use ion_dtn_terrestrial.Prelude.Bits.{Bytes}
use ion_dtn_terrestrial.Ltp.Types.{
  SegType, red_data, red_data_cp, red_data_eorp_cp, DataSegment, Claim, ReportSegment,
  max_segment_buf,
}
use ion_dtn_terrestrial.Ltp.Encode.{ltp_encode_data_segment}
use ion_dtn_terrestrial.Ltp.RecvMap.{range_end}
use ion_dtn_terrestrial.Ltp.Engine.State.{
  Timespec, checkpoint_timer, ExportSession, Engine, Link, default_segment_mtu, inc64, find_index,
  find_first, set,
}
use ion_dtn_terrestrial.Ltp.Engine.Timers.{ltp_start_timer}
use ion_dtn_terrestrial.Ltp.Engine.Endpoints.{ltp_eid_to_engine_id}
use ion_dtn_terrestrial.Ltp.Engine.Output.{ltp_paced_write, transmit}

-- A red segment of a session; `data` points into the block. The checkpoint serial is 0 but in the
-- last segment of a run, of type `last_type`.
abbrev pub red_segment : ExportSession → SegType → Bool → ℕ → ℕ → DataSegment
red_segment sess last_type is_last offset chunk = record {
  hdr = record {
    version = 0;
    type = if is_last then last_type else red_data;
    sender_engine_id = sess.engine_id;
    session_number = sess.session_number;
    hdr_ext_count = 0;
    trailer_ext_count = 0;
  };
  client_svc_id = 1;
  offset = offset;
  len = chunk;
  cp_serial = if is_last then sess.next_cp_serial else 0;
  rpt_serial = 0;
  payload = some (drop offset sess.block_data);
}

-- `chunk = len - offset; if (chunk > mtu) chunk = mtu;`
abbrev pub chunk_at : ℕ → ℕ → ℕ → ℕ
chunk_at mtu len offset = if ltb mtu (len - offset) then mtu else len - offset

-- The `while (offset < len)` loop. With `mtu` 0 the C loop does not end; with a greater one each
-- round takes a byte at least, so that `len` rounds are enough.
unfoldable pub segment_loop : ℕ → ExportSession → ℕ → List DataSegment
segment_loop zero sess offset = []
segment_loop (suc fuel) sess offset =
    let chunk = chunk_at sess.segment_mtu sess.block_len offset in
    let is_last = leb sess.block_len (offset + chunk) in
    let rest =
      red_segment sess red_data_eorp_cp is_last offset chunk
      ∷ segment_loop fuel sess (offset + chunk) in
    if ltb offset sess.block_len then rest else []

abbrev pub export_of : Engine → ℕ → Bytes → ExportSession
export_of eng remote_engine_id block = record {
  active = true;
  engine_id = eng.local_engine_id;
  session_number = eng.next_session_number;
  remote_engine_id = remote_engine_id;
  block_data = block;
  block_len = length block;
  segment_mtu = eng.config.segment_mtu;
  next_cp_serial = 1;
  completed = false;
  cancelled = false;
}

-- The engine, and the segments that the callback is called with; `none` is -1. The last segment
-- takes the serial 1, so that the next one is 2.
unfoldable pub ltp_segment_block : Engine → ℕ → Bytes → Option (Engine × List DataSegment)
unfolding segment_loop find_index
ltp_segment_block eng remote_engine_id block = do
  fail_if (length block == 0)
  fail_if (ltb eng.config.max_block_size (length block))
  slot ← find_index (λ (s : ExportSession). not s.active) eng.export_sessions
  let sess = export_of eng remote_engine_id block
  let segments = segment_loop (length block) sess 0
  some (
    record eng {
      next_session_number = inc64 eng.next_session_number;
      export_sessions = set eng.export_sessions slot (record sess { next_cp_serial = 2 });
    },
    segments,
  )

-- `send_block_cb` on each segment: the engine, and the error flag.
unfoldable pub send_segments : Link → List DataSegment → Engine → Engine × Bool
unfolding ltp_paced_write
send_segments link [] eng = (eng, false)
send_segments link (seg ∷ segments) eng =
    let encoded = ltp_encode_data_segment seg max_segment_buf in
    let outcome : Engine × Bool = elim encoded [
      | none ↦ (eng, false)
      | some bytes ↦ ltp_paced_write link bytes eng
    ] in
    let rest = send_segments link segments outcome.0 in
    if outcome.1 then rest else (outcome.0, true)

-- The checkpoint timer of the session that was created last.
unfoldable pub start_checkpoint : Timespec → Engine → Engine
start_checkpoint now eng =
    elim (find_first
      (λ (s : ExportSession).
        s.active
        && (s.engine_id == eng.local_engine_id
            && s.session_number == (eng.next_session_number + 2 ^ 64 - 1) % 2 ^ 64))
      eng.export_sessions) [
        | none ↦ eng
        | some s ↦
            ltp_start_timer now checkpoint_timer s.engine_id s.session_number
              ((s.next_cp_serial + 2 ^ 64 - 1) % 2 ^ 64) eng
      ]

-- The engine, and whether the function returned 0.
unfoldable pub ltp_send_block : Link → Timespec → Bytes → Bytes → Engine → Engine × Bool
unfolding ltp_segment_block send_segments start_checkpoint find_first
ltp_send_block link now remote_eid block eng =
    elim (ltp_segment_block eng (ltp_eid_to_engine_id remote_eid) block) [
      | none ↦ (eng, false)
      | some (eng1, segments) ↦
          (let (eng2, error) = send_segments link segments eng1 in
            let eng3 = record eng2 {
              segments_sent = (eng2.segments_sent + length segments) % 2 ^ 32;
            } in
            if error then (eng2, false) else (start_checkpoint now eng3, true))
    ]

-- A missing range [start, end).
pub record Range : Type 0 where
  pub start : ℕ
  pub stop : ℕ

-- The loop over the claims, from `cursor` on, and the gap after the last one. There are at most
-- LTP_MAX_CLAIMS claims, so the array of LTP_MAX_CLAIMS + 1 ranges is never full.
unfoldable pub missing_from : ℕ → ℕ → List Claim → List Range
missing_from upper cursor [] =
    if ltb cursor upper then record { start = cursor; stop = upper } ∷ [] else []
missing_from upper cursor (c ∷ claims) =
    let claim_end = range_end c.offset c.len in
    let rest = missing_from upper (if ltb cursor claim_end then claim_end else cursor) claims in
    if ltb cursor c.offset then record { start = cursor; stop = c.offset } ∷ rest else rest

-- `if (upper > sess->block_len) upper = sess->block_len;`
unfoldable pub missing_ranges : ℕ → ReportSegment → List Range
unfolding missing_from
missing_ranges block_len rpt =
    missing_from (if ltb block_len rpt.upper_bound then block_len else rpt.upper_bound)
      rpt.lower_bound rpt.claims

-- The chunks of a range, each an offset and a length.
unfoldable pub range_chunks : ℕ → ℕ → ℕ → ℕ → List (ℕ × ℕ)
range_chunks zero mtu off stop = []
range_chunks (suc fuel) mtu off stop =
    let chunk = chunk_at mtu stop off in
    let rest = (off, chunk) ∷ range_chunks fuel mtu (off + chunk) stop in
    if ltb off stop then rest else []

unfoldable pub missing_chunks : ℕ → List Range → List (ℕ × ℕ)
unfolding range_chunks
missing_chunks mtu [] = []
missing_chunks mtu (r ∷ ranges) =
    range_chunks (r.stop - r.start) mtu r.start r.stop ++ missing_chunks mtu ranges

-- The last chunk of all carries the new checkpoint.
unfoldable pub retransmissions : ExportSession → List (ℕ × ℕ) → List DataSegment
retransmissions sess [] = []
retransmissions sess ((off, chunk) ∷ chunks) =
    red_segment sess red_data_cp (length chunks == 0) off chunk ∷ retransmissions sess chunks

unfoldable pub transmit_all : Link → List DataSegment → Engine → Engine
unfolding transmit
transmit_all link [] eng = eng
transmit_all link (seg ∷ segments) eng =
    transmit_all link segments (transmit link (ltp_encode_data_segment seg max_segment_buf) eng)

-- The first of the session's MTU, the engine's and the default that is not 0.
abbrev pub retransmit_mtu : Engine → ExportSession → ℕ
retransmit_mtu eng sess =
    if sess.segment_mtu == 0
    then (if eng.config.segment_mtu == 0 then default_segment_mtu else eng.config.segment_mtu)
    else sess.segment_mtu

-- The engine and the session; with nothing missing both are left alone. (The number of segments
-- that is returned is used by no caller.)
unfoldable pub ltp_retransmit_missing :
    Link → ExportSession → ReportSegment → Engine → Engine × ExportSession
unfolding missing_ranges missing_chunks retransmissions transmit_all
ltp_retransmit_missing link sess rpt eng =
    let chunks = missing_chunks (retransmit_mtu eng sess) (missing_ranges sess.block_len rpt) in
    let sent = transmit_all link (retransmissions sess chunks) eng in
    if length chunks == 0
    then (eng, sess)
    else (sent, record sess { next_cp_serial = inc64 sess.next_cp_serial })

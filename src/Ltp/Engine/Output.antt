-- ===== src/Ltp/Engine/Output.antt =====
-- `ltp_paced_write` and the places that send one encoded segment.
use ion_dtn_terrestrial.Prelude.{
  ◌+◌, ◌*◌, Bool, true, false, not, ◌&&◌, ◌||◌, ◌==◌, ltb, if◌then◌else◌, [], ◌∷◌, ◌++◌, length,
  Option, none, some,
}
use ion_dtn_terrestrial.Prelude.Bits.{Bytes}
use ion_dtn_terrestrial.Ax25.{ax25_build_frame}
use ion_dtn_terrestrial.Kiss.{kiss_encode}
use ion_dtn_terrestrial.Ltp.Types.{max_segment_buf}
use ion_dtn_terrestrial.Ltp.Engine.State.{Config, Engine, Link, inc32}

-- `cfg->src_call[0] && cfg->dst_call[0]`
abbrev has_calls : Config → Bool
has_calls cfg = ltb 0 (length cfg.src_call) && ltb 0 (length cfg.dst_call)

-- What goes into the KISS frame: an AX.25 frame, or the segment alone if there are no callsigns
-- or no frame can be built.
unfoldable pub to_kiss : Config → Bytes → Bytes
to_kiss cfg ltp_data =
    let wrapped : Bytes =
      elim (ax25_build_frame cfg.dst_call cfg.src_call ltp_data (max_segment_buf + 20)) [
        | none ↦ ltp_data
        | some ax_frame ↦ ax_frame
      ] in
    if has_calls cfg then wrapped else ltp_data

unfoldable pub write_frame : Link → Bytes → Engine → Engine × Bool
write_frame link kiss_frame eng =
    if link.write_ok eng.written kiss_frame
    then (record eng { written = eng.written ++ (kiss_frame ∷ []) }, true)
    else (eng, false)

-- The engine, and whether the function returned 0. (The pause for the radio is no state.)
unfoldable pub ltp_paced_write : Link → Bytes → Engine → Engine × Bool
unfolding to_kiss write_frame
ltp_paced_write link ltp_data eng =
    let kiss_frame = kiss_encode (to_kiss eng.config ltp_data) ((max_segment_buf + 20) * 2 + 3) in
    let result : Engine × Bool = elim kiss_frame [
      | none ↦ (eng, false)
      | some bytes ↦ write_frame link bytes eng
    ] in
    if not link.fd_valid || length ltp_data == 0 then (eng, false) else result

-- `if (len > 0 && fd >= 0) { if (ltp_paced_write(...) == 0) eng->segments_sent++; }`
unfoldable pub transmit : Link → Option Bytes → Engine → Engine
unfolding ltp_paced_write
transmit link none eng = eng
transmit link (some bytes) eng =
    let (eng', done) = ltp_paced_write link bytes eng in
    let counted = if done then record eng' { segments_sent = inc32 eng'.segments_sent } else eng' in
    if ltb 0 (length bytes) && link.fd_valid then counted else eng

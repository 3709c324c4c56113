-- ===== src/Ltp/Engine/Segmentation.antt =====
-- `ltp_segment_block` of kiss-interface/ltp.c against the block that it cuts.
use ion_dtn_terrestrial.Prelude.{
  ℕ, zero, suc, ◌+◌, ◌≤◌, ◌<◌, ◌==◌, leb, ltb, not, Bool, Bool-cases, true, false, List, [], ◌∷◌,
  length, drop, length-drop, some, ◌≡◌, ◌∙◌, refl, inl, inr, arith, fail_if, >>=-eq-some, subst, ap,
}
use ion_dtn_terrestrial.Prelude.Bits.{Bytes}
use ion_dtn_terrestrial.Ltp.Types.{DataSegment, red_data_eorp_cp}
use ion_dtn_terrestrial.Ltp.Engine.State.{ExportSession, Engine, find_index, byte_at}
use ion_dtn_terrestrial.Ltp.Engine.Import.{is_eorp}
use ion_dtn_terrestrial.Ltp.Engine.Export.{
  red_segment, chunk_at, segment_loop, export_of, ltp_segment_block,
}
use ion_dtn_terrestrial.Ltp.Engine.Reassembly.{PartOf}

-- One segment of a cut from `from` on, and what follows it.
pub record Cut (block : Bytes) (mtu from : ℕ) (seg : DataSegment) (last : Bool) : Type 0 where
  pub begins : seg.offset ≡ from
  pub some_byte : 0 < seg.len
  pub fits_mtu : seg.len ≤ mtu
  pub part : PartOf block seg
  pub closes : is_eorp seg.hdr.type ≡ last

abbrev pub is_empty : List DataSegment → Bool
is_empty [] = true
is_empty (seg ∷ segs) = false

-- The segments follow one another without gap or overlap to the end of the block, and the last one
-- alone ends the red part.
pub data Cuts (block : Bytes) (mtu : ℕ) : ℕ → List DataSegment → Type 0 where
  done : {from : ℕ} → from ≡ length block → Cuts block mtu from []
  cut :
      {from : ℕ} {seg : DataSegment} {segs : List DataSegment}
      → Cut block mtu from seg (is_empty segs)
      → Cuts block mtu (from + seg.len) segs
      → Cuts block mtu from (seg ∷ segs)

byte_at-drop :
    (offset : ℕ) (block : Bytes) (i : ℕ)
    → byte_at (drop offset block) i ≡ byte_at block (offset + i)
byte_at-drop zero block i = let same : i ≡ 0 + i = omega arith in ap (byte_at block) same
byte_at-drop (suc n) [] i = refl
byte_at-drop (suc n) (b ∷ block) i =
    let next : suc (n + i) ≡ suc n + i = omega arith in
    byte_at-drop n block i ∙ ap (byte_at (b ∷ block)) next

chunk_bounds :
    (mtu len offset : ℕ)
    → 0 < mtu
    → offset < len
    → (0 < chunk_at mtu len offset)
      × (chunk_at mtu len offset ≤ mtu)
      × (offset + chunk_at mtu len offset ≤ len)
chunk_bounds mtu len offset h k = ground arith

red_segment-PartOf :
    (sess : ExportSession) (offset chunk : ℕ)
    → offset + chunk ≤ length sess.block_data
    → PartOf sess.block_data (
        red_segment sess red_data_eorp_cp
          (leb (length sess.block_data) (offset + chunk))
          offset
          chunk)
red_segment-PartOf sess offset chunk inside = record {
  bytes = drop offset sess.block_data;
  points_to = refl;
  holds = omega (arith, length-drop offset sess.block_data);
  inside = inside;
  same = λ i below. byte_at-drop offset sess.block_data i;
  ends = λ e. ground arith;
}

-- With enough fuel the loop stops at the end of the block and not before.
is_empty-segment_loop :
    (fuel : ℕ) (sess : ExportSession) (offset : ℕ)
    → sess.block_len ≤ offset + fuel
    → is_empty (segment_loop fuel sess offset) ≡ leb sess.block_len offset
unfolding segment_loop
is_empty-segment_loop zero sess offset enough = ground arith
is_empty-segment_loop (suc fuel) sess offset enough = ground arith

next-Cut :
    (fuel : ℕ) (sess : ExportSession) (offset chunk : ℕ)
    → chunk ≡ chunk_at sess.segment_mtu sess.block_len offset
    → sess.block_len ≡ length sess.block_data
    → 0 < sess.segment_mtu
    → offset < sess.block_len
    → sess.block_len ≤ offset + chunk + fuel
    → Cut sess.block_data sess.segment_mtu offset
        (red_segment sess red_data_eorp_cp (leb sess.block_len (offset + chunk)) offset chunk)
        (is_empty (segment_loop fuel sess (offset + chunk)))
next-Cut fuel sess offset chunk is_chunk len positive before enough =
    let bounds = chunk_bounds sess.segment_mtu sess.block_len offset positive before in
    record {
      begins = refl;
      some_byte = rw is_chunk bounds.0;
      fits_mtu = rw is_chunk bounds.1;
      part = rw len (red_segment-PartOf sess offset chunk (omega (arith, bounds.2, is_chunk, len)));
      closes = rw (is_empty-segment_loop fuel sess (offset + chunk) enough) (ground arith);
    }

segment_loop-Cuts :
    (fuel : ℕ) (sess : ExportSession) (offset : ℕ)
    → sess.block_len ≡ length sess.block_data
    → 0 < sess.segment_mtu
    → offset ≤ sess.block_len
    → sess.block_len ≤ offset + fuel
    → Cuts sess.block_data sess.segment_mtu offset (segment_loop fuel sess offset)
unfolding segment_loop
segment_loop-Cuts zero sess offset len positive within enough = done (omega arith)
segment_loop-Cuts (suc fuel) sess offset len positive within enough =
    elim (Bool-cases (ltb offset sess.block_len)) [
      | inl before ↦
          let chunk = chunk_at sess.segment_mtu sess.block_len offset in
          let bounds =
            chunk_bounds sess.segment_mtu sess.block_len offset positive (ground arith) in
          rw before (
            cut
              (next-Cut fuel sess offset chunk refl len positive (ground arith)
                (omega (arith, bounds.0)))
              (segment_loop-Cuts fuel sess (offset + chunk) len positive bounds.2
                (omega (arith, bounds.0))))
      | inr past ↦ rw past (done (ground arith))
    ]

-- With a segment MTU above 0, the segments of a block begin at its first byte, follow one another
-- without gap or overlap to its last one, each with 1 to MTU bytes of the block; the last one, and
-- no other, is marked as the end of the red part.
pub segment_block-Cuts :
    (eng : Engine) (remote_engine_id : ℕ) (block : Bytes) {eng' : Engine}
    {segments : List DataSegment}
    → 0 < eng.config.segment_mtu
    → ltp_segment_block eng remote_engine_id block ≡ some (eng', segments)
    → Cuts block eng.config.segment_mtu 0 segments
unfolding ltp_segment_block
segment_block-Cuts eng remote_engine_id block {eng'} {segments} positive e =
    let (u, nonempty, e1) = >>=-eq-some (fail_if (length block == 0)) _ e in
    let (v, fits, e2) = >>=-eq-some (fail_if (ltb eng.config.max_block_size (length block))) _ e1 in
    let (slot, free, e3) =
      >>=-eq-some (find_index (λ (s : ExportSession). not s.active) eng.export_sessions) _ e2 in
    let same : segment_loop (length block) (export_of eng remote_engine_id block) 0 ≡ segments =
      cc in
    subst (Cuts block eng.config.segment_mtu 0) same (
      segment_loop-Cuts (length block) (export_of eng remote_engine_id block) 0 refl positive
        (omega arith) (omega arith))

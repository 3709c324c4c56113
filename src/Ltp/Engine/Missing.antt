-- ===== src/Ltp/Engine/Missing.antt =====
-- `ltp_retransmit_missing` of kiss-interface/ltp.c: the bytes that it sends again.
use ion_dtn_terrestrial.Prelude.{
  ℕ, zero, suc, ◌+◌, ◌-◌, ◌≤◌, ◌<◌, leb, ltb, not, if◌then◌else◌, Bool, false, ◌&&◌, ◌||◌, List, [],
  drop, some, ◌∷◌, ◌++◌, ◌≡◌, ◌∙◌, refl, arith, All,
}
use ion_dtn_terrestrial.Prelude.Bits.{Bytes}
use ion_dtn_terrestrial.Ltp.Types.{Claim, DataSegment, ReportSegment}
use ion_dtn_terrestrial.Ltp.RecvMap.Coverage.{within, covered}
use ion_dtn_terrestrial.Ltp.RecvMap.Gaps.{Gapped}
use ion_dtn_terrestrial.Ltp.Engine.State.{ExportSession}
use ion_dtn_terrestrial.Ltp.Engine.Export.{
  Range, chunk_at, missing_from, missing_ranges, range_chunks, missing_chunks, retransmissions,
}

-- Byte x lies in one of the ranges, in one of the chunks, in one of the segments.
in_ranges : List Range → ℕ → Bool
in_ranges [] x = false
in_ranges (r ∷ ranges) x = within r.start r.stop x || in_ranges ranges x

in_chunks : List (ℕ × ℕ) → ℕ → Bool
in_chunks [] x = false
in_chunks ((off, chunk) ∷ chunks) x = within off (off + chunk) x || in_chunks chunks x

unfoldable pub carried : List DataSegment → ℕ → Bool
carried [] x = false
carried (seg ∷ segs) x = within seg.offset (seg.offset + seg.len) x || carried segs x

covered_below :
    (low : ℕ) (claims : List Claim) (x : ℕ) → Gapped low claims → x < low → covered claims x ≡ false
unfolding covered
covered_below low [] x g h = refl
covered_below low (c ∷ claims) x g h =
    ground (arith, covered_below (suc (c.offset + c.len)) claims x)

missing_from-covered :
    (upper cursor low : ℕ) (claims : List Claim) (x : ℕ)
    → Gapped low claims
    → All (λ (c : Claim). c.offset ≤ upper) claims
    → in_ranges (missing_from upper cursor claims) x
      ≡ (leb cursor x && ltb x upper) && not (covered claims x)
unfolding missing_from in_ranges covered
missing_from-covered upper cursor low [] x g h = ground arith
missing_from-covered upper cursor low (c ∷ claims) x (lo, pos, ends, g) (inside, h) = ground (
  arith,
  covered_below (suc (c.offset + c.len)) claims x g,
  missing_from-covered upper (c.offset + c.len) (suc (c.offset + c.len)) claims x g h,
  missing_from-covered upper cursor (suc (c.offset + c.len)) claims x g h,
)

in_chunks-range_chunks :
    (fuel mtu off stop x : ℕ)
    → 0 < mtu
    → stop ≤ off + fuel
    → in_chunks (range_chunks fuel mtu off stop) x ≡ within off stop x
unfolding in_chunks range_chunks
in_chunks-range_chunks zero mtu off stop x positive enough = ground arith
in_chunks-range_chunks (suc fuel) mtu off stop x positive enough =
    ground (arith, in_chunks-range_chunks fuel mtu (off + chunk_at mtu stop off) stop x positive)

in_chunks-++ : (a b : List (ℕ × ℕ)) (x : ℕ) → in_chunks (a ++ b) x ≡ in_chunks a x || in_chunks b x
unfolding in_chunks
in_chunks-++ [] b x = refl
in_chunks-++ ((off, chunk) ∷ a) b x = ground (arith, in_chunks-++ a b x)

in_chunks-missing_chunks :
    (mtu : ℕ) (ranges : List Range) (x : ℕ)
    → 0 < mtu
    → in_chunks (missing_chunks mtu ranges) x ≡ in_ranges ranges x
unfolding in_chunks in_ranges missing_chunks
in_chunks-missing_chunks mtu [] x positive = refl
in_chunks-missing_chunks mtu (r ∷ ranges) x positive = ground (
  arith,
  in_chunks-++ (range_chunks (r.stop - r.start) mtu r.start r.stop) (missing_chunks mtu ranges) x,
  in_chunks-range_chunks (r.stop - r.start) mtu r.start r.stop x positive (omega arith),
  in_chunks-missing_chunks mtu ranges x positive,
)

carried-retransmissions :
    (sess : ExportSession) (chunks : List (ℕ × ℕ)) (x : ℕ)
    → carried (retransmissions sess chunks) x ≡ in_chunks chunks x
unfolding carried in_chunks retransmissions
carried-retransmissions sess [] x = refl
carried-retransmissions sess ((off, chunk) ∷ chunks) x =
    ground (arith, carried-retransmissions sess chunks x)

-- The data of a segment are the bytes of the block from the segment's offset on. (What is handed
-- over begins there and goes on to the block's end; the segment takes `len` bytes of it.)
abbrev pub IsCopied : Bytes → DataSegment → Type 0
IsCopied block_data seg = seg.payload ≡ some (drop seg.offset block_data)

retransmissions-IsCopied :
    (sess : ExportSession) (chunks : List (ℕ × ℕ))
    → All (IsCopied sess.block_data) (retransmissions sess chunks)
unfolding retransmissions
retransmissions-IsCopied sess [] = tt
retransmissions-IsCopied sess ((off, chunk) ∷ chunks) = (refl, retransmissions-IsCopied sess chunks)

-- The end of what is asked for: the report's upper bound, or the block's end if that is less.
abbrev pub upper_end : ℕ → ReportSegment → ℕ
upper_end block_len rpt = if ltb block_len rpt.upper_bound then block_len else rpt.upper_bound

-- If the claims of the report are sorted, non-empty and apart and none begins behind the end of
-- what is asked for (the upper bound, or the block's end if that is less), and the MTU is above 0:
-- the segments that are sent again carry exactly the positions from the report's lower bound to
-- that end that no claim covers, claims and bounds both being counted from the beginning of the
-- block, and the data that each hands to the encoder begin at its offset in the block.
pub retransmissions-missing :
    (mtu : ℕ) (sess : ExportSession) (rpt : ReportSegment) (x : ℕ)
    → 0 < mtu
    → Gapped 0 rpt.claims
    → All (λ (c : Claim). c.offset ≤ upper_end sess.block_len rpt) rpt.claims
    → (carried (retransmissions sess (missing_chunks mtu (missing_ranges sess.block_len rpt))) x
        ≡ (leb rpt.lower_bound x && ltb x (upper_end sess.block_len rpt))
          && not (covered rpt.claims x))
      × All
          (IsCopied sess.block_data)
          (retransmissions sess (missing_chunks mtu (missing_ranges sess.block_len rpt)))
unfolding missing_ranges
retransmissions-missing mtu sess rpt x positive sorted inside =
    let chunks = missing_chunks mtu (missing_ranges sess.block_len rpt) in
    (
      carried-retransmissions sess chunks x
          ∙ in_chunks-missing_chunks mtu (missing_ranges sess.block_len rpt) x positive
          ∙ missing_from-covered (upper_end sess.block_len rpt) rpt.lower_bound 0 rpt.claims x
              sorted inside,
      retransmissions-IsCopied sess chunks,
    )

-- ===== src/Ltp/Engine/SegmentRuns.antt =====
-- A block of three bytes that kiss-interface/ltp.c sends in segments of two bytes at most.
use ion_dtn_terrestrial.Prelude.{
  All, true, false, List, [], ◌∷◌, some, ◌≡◌, refl, arith, ltb, leb, not, ◌&&◌,
}
use ion_dtn_terrestrial.Prelude.Bits.{Bytes}
use ion_dtn_terrestrial.Ltp.Types.{
  red_data_cp, red_data_eorp_cp, report, DataSegment, ReportSegment,
}
use ion_dtn_terrestrial.Ltp.RecvMap.Coverage.{covered}
use ion_dtn_terrestrial.Ltp.Engine.Missing.{IsCopied, carried, retransmissions-missing}
use ion_dtn_terrestrial.Ltp.Engine.State.{Engine, ImportSession, ExportSession, bytes_of, set}
use ion_dtn_terrestrial.Ltp.Engine.Endpoints.{new_engine, no_export, default_config}
use ion_dtn_terrestrial.Ltp.Engine.Export.{
  red_segment, export_of, ltp_segment_block, retransmissions, missing_chunks, missing_ranges,
}
use ion_dtn_terrestrial.Ltp.Engine.Import.{new_session}
use ion_dtn_terrestrial.Ltp.Engine.Segmentation.{Cuts, segment_block-Cuts}
use ion_dtn_terrestrial.Ltp.Engine.InOrder.{receive_all, receive_all-segment_block}

abbrev block : Bytes
block = 10 ∷ 20 ∷ 30 ∷ []

-- An engine with one slot for an export session.
abbrev eng : Engine
eng = record (new_engine [] (some (record default_config { segment_mtu = 2 }))) {
  export_sessions = no_export ∷ [];
}

abbrev sess : ExportSession
sess = export_of eng 9 block

abbrev segments : List DataSegment
segments =
    red_segment sess red_data_eorp_cp false 0 2 ∷ red_segment sess red_data_eorp_cp true 2 1 ∷ []

abbrev sent : Engine
sent = record eng {
  next_session_number = 2;
  export_sessions = record sess { next_cp_serial = 2 } ∷ [];
}

block_is_cut : ltp_segment_block eng 9 block ≡ some (sent, segments)
unfolding ltp_segment_block set
block_is_cut = refl

segment_block-Cuts_example : Cuts block 2 0 segments
segment_block-Cuts_example = segment_block-Cuts eng 9 block (omega arith) block_is_cut

receive_all-segment_block_example :
    (final : ImportSession) × (receive_all segments
        (new_session (red_segment sess red_data_eorp_cp true 2 1).hdr)
      ≡ some final)
    × (final.complete ≡ true)
    × (bytes_of final.block_len final.block_data ≡ block)
receive_all-segment_block_example =
    receive_all-segment_block eng 9 block (red_segment sess red_data_eorp_cp true 2 1).hdr
      (omega arith) (omega arith) block_is_cut

-- The report of a receiver that has got the middle byte only.
abbrev rpt : ReportSegment
rpt = record {
  hdr = record {
    version = 0;
    type = report;
    sender_engine_id = 5;
    session_number = 1;
    hdr_ext_count = 0;
    trailer_ext_count = 0;
  };
  rpt_serial = 1;
  cp_serial = 1;
  upper_bound = 3;
  lower_bound = 0;
  claims = record { offset = 1; len = 1 } ∷ [];
}

two_bytes_again :
    retransmissions sess (missing_chunks 2 (missing_ranges 3 rpt))
    ≡ red_segment sess red_data_cp false 0 1 ∷ red_segment sess red_data_cp true 2 1 ∷ []
unfolding retransmissions missing_chunks missing_ranges
two_bytes_again = refl

retransmissions-missing_example :
    (carried (retransmissions sess (missing_chunks 2 (missing_ranges sess.block_len rpt))) 2
      ≡ (leb 0 2 && ltb 2 3) && not (covered rpt.claims 2))
    × All
        (IsCopied sess.block_data)
        (retransmissions sess (missing_chunks 2 (missing_ranges sess.block_len rpt)))
retransmissions-missing_example =
    retransmissions-missing 2 sess rpt 2 (omega arith) (omega arith, omega arith, omega arith, tt)
      (omega arith, tt)

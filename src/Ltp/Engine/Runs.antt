-- ===== src/Ltp/Engine/Runs.antt =====
-- Runs of the engine of kiss-interface/ltp.c on concrete segments.
use ion_dtn_terrestrial.Prelude.{
  ℕ, zero, suc, ◌≤◌, ◌<◌, ◌+◌, true, false, List, [], ◌∷◌, length, none, some, ◌≡◌, refl, ap, subst,
  arith, All,
}
use ion_dtn_terrestrial.Prelude.Bits.{Bytes}
use ion_dtn_terrestrial.Ltp.Types.{
  red_data_eorp_cp, SegmentHdr, DataSegment, max_block_size, max_segment_buf,
}
use ion_dtn_terrestrial.Buffer.{put}
use ion_dtn_terrestrial.Kiss.{kiss_encode, kiss_decoder_init, kiss_decoder_feed}
use ion_dtn_terrestrial.Ax25.{ax25_strip_frame}
use ion_dtn_terrestrial.Ltp.Engine.Run.{Round, read_bytes, ltp_engine_run}
use ion_dtn_terrestrial.Ltp.Engine.Listen.{IsGenuineFrame, RoundsAreGenuine, ltp_engine_run-IsSent}
use ion_dtn_terrestrial.Ltp.RecvMap.{ltp_recv_map_add_claim}
use ion_dtn_terrestrial.Sdnv.{sdnv_encode, read_sdnv}
use ion_dtn_terrestrial.Ltp.Encode.{
  ltp_encode_header, put_serials, put_payload, ltp_encode_data_segment, ltp_encode_report,
}
use ion_dtn_terrestrial.Ltp.Decode.{ltp_decode_segment, ltp_decode_data_content}
use ion_dtn_terrestrial.Ltp.Engine.State.{Timespec, ImportSession, Engine, Link, bytes_of, byte_at}
use ion_dtn_terrestrial.Ltp.Engine.Endpoints.{ltp_engine_init}
use ion_dtn_terrestrial.Ltp.Engine.Import.{new_session, receive_data}
use ion_dtn_terrestrial.Ltp.Engine.Process.{ltp_process_segment}
use ion_dtn_terrestrial.Ltp.Engine.Reassembly.{PartOf, Holds, receive_data-Holds}
use ion_dtn_terrestrial.Ltp.Engine.Delivery.{IsSent, new_session-HoldsOwn}
use ion_dtn_terrestrial.Ltp.Engine.Genuine.{IsGenuine}
use ion_dtn_terrestrial.Ltp.Engine.Reach.{IsReached, start, process, deliveries-IsSent}

abbrev block : Bytes
block = 10 ∷ 20 ∷ 30 ∷ []

abbrev hdr : SegmentHdr
hdr = record {
  version = 0;
  type = red_data_eorp_cp;
  sender_engine_id = 5;
  session_number = 7;
  hdr_ext_count = 0;
  trailer_ext_count = 0;
}

-- The last two bytes of the block.
abbrev tail : DataSegment
tail = record {
  hdr = hdr;
  client_svc_id = 1;
  offset = 1;
  len = 2;
  cp_serial = 1;
  rpt_serial = 0;
  payload = some (20 ∷ 30 ∷ []);
}

-- The whole block in one segment.
abbrev whole : DataSegment
whole = record {
  hdr = hdr;
  client_svc_id = 1;
  offset = 0;
  len = 3;
  cp_serial = 1;
  rpt_serial = 0;
  payload = some block;
}

abbrev pub whole_buf : Bytes
whole_buf = 2 ∷ 5 ∷ 7 ∷ 0 ∷ 0 ∷ 1 ∷ 0 ∷ 3 ∷ 1 ∷ 0 ∷ 10 ∷ 20 ∷ 30 ∷ []

abbrev pub link : Link
link = record { fd_valid = true; write_ok = λ _ _. true }

abbrev now : Timespec
now = record { tv_sec = 100; tv_nsec = 0 }

-- "node"
abbrev eid : Bytes
eid = 110 ∷ 111 ∷ 100 ∷ 101 ∷ []

encoded : ltp_encode_data_segment whole max_segment_buf ≡ some whole_buf
unfolding ltp_encode_data_segment put ltp_encode_header sdnv_encode put_serials put_payload
encoded = refl

tail-PartOf : PartOf block tail
tail-PartOf = record {
  bytes = 20 ∷ 30 ∷ [];
  points_to = refl;
  holds = omega arith;
  inside = omega arith;
  same = λ i below. two i below;
  ends = λ _. refl;
}
  where
    two : (i : ℕ) → i < 2 → byte_at (20 ∷ 30 ∷ []) i ≡ byte_at block (1 + i)
    two zero h = refl
    two (suc zero) h = refl
    two (suc (suc i)) h = absurd (omega arith)

receive_data-Holds_example :
    (next : ImportSession) × (receive_data tail (new_session hdr) ≡ some next)
    × Holds block next
    × (next.complete ≡ true → bytes_of next.block_len next.block_data ≡ block)
receive_data-Holds_example =
    receive_data-Holds block tail (new_session hdr) (omega arith) tail-PartOf
      (new_session-HoldsOwn (λ _ _. block) hdr)

-- Every sender and session has the same block.
abbrev pub one_block : ℕ → ℕ → Bytes
one_block _ _ = block

pub one_block_small : (id number : ℕ) → length (one_block id number) ≤ max_block_size
one_block_small id number = omega arith

whole-PartOf : (dseg : DataSegment) → whole ≡ dseg → PartOf block dseg
whole-PartOf dseg e = subst (PartOf block) e (record {
  bytes = block;
  points_to = refl;
  holds = omega arith;
  inside = omega arith;
  same = λ i below. ap (byte_at block) (omega arith);
  ends = λ _. refl;
})

decoded_hdr :
    ltp_decode_segment whole_buf max_segment_buf ≡ some (hdr, 1 ∷ 0 ∷ 3 ∷ 1 ∷ 0 ∷ 10 ∷ 20 ∷ 30 ∷ [])
unfolding ltp_decode_segment read_sdnv
decoded_hdr = refl

decoded_data : ltp_decode_data_content (1 ∷ 0 ∷ 3 ∷ 1 ∷ 0 ∷ 10 ∷ 20 ∷ 30 ∷ []) hdr ≡ some whole
unfolding ltp_decode_data_content read_sdnv
decoded_data = refl

pub whole-IsGenuine : IsGenuine one_block one_block_small whole_buf
whole-IsGenuine = λ h body dseg first content.
    (let same_hdr : hdr ≡ h = cc (decoded_hdr, first) in
      let same_body : (1 ∷ 0 ∷ 3 ∷ 1 ∷ 0 ∷ 10 ∷ 20 ∷ 30 ∷ []) ≡ body = cc (decoded_hdr, first) in
      whole-PartOf dseg (cc (decoded_data, content, same_hdr, same_body)))

abbrev engine : Engine
engine = (ltp_process_segment link now whole_buf (ltp_engine_init eid none).0).0

engine-IsReached : IsReached one_block one_block_small link engine
engine-IsReached = process now whole_buf whole-IsGenuine (start eid none)

-- The engine has delivered the block.
delivered : engine.deliveries ≡ (record { block = block; remote_engine_id = 5 }) ∷ []
unfolding ltp_process_segment ltp_engine_init ltp_decode_segment ltp_decode_data_content read_sdnv
    ltp_recv_map_add_claim ltp_encode_report put ltp_encode_header sdnv_encode kiss_encode bytes_of
delivered = refl

deliveries-IsSent_example : All (IsSent one_block) engine.deliveries
deliveries-IsSent_example = deliveries-IsSent one_block one_block_small link engine engine-IsReached

abbrev pub line : Bytes
line = 0xC0 ∷ 0x00 ∷ 2 ∷ 5 ∷ 7 ∷ 0 ∷ 0 ∷ 1 ∷ 0 ∷ 3 ∷ 1 ∷ 0 ∷ 10 ∷ 20 ∷ 30 ∷ 0xC0 ∷ []

-- A round in which the segment is read.
abbrev rounds : List Round
rounds =
    record { event = read_bytes line; timeout_time = now; byte_time = λ i. now; end_time = now }
    ∷ []

whole_is_no_ax25 : ax25_strip_frame whole_buf ≡ none
unfolding ax25_strip_frame
whole_is_no_ax25 = refl

whole-IsGenuineFrame : IsGenuineFrame one_block one_block_small whole_buf
whole-IsGenuineFrame = record {
  alone = whole-IsGenuine;
  inside = λ asrc adst info stripped. cc (whole_is_no_ax25, stripped);
}

rounds_are_genuine :
    RoundsAreGenuine one_block one_block_small link none rounds (kiss_decoder_init, engine)
unfolding kiss_decoder_feed
rounds_are_genuine = (
  (
    tt,
    (
      tt,
      (
        tt,
        (
          tt,
          (
            tt,
            (tt, (tt, (tt, (tt, (tt, (tt, (tt, (tt, (tt, (tt, (whole-IsGenuineFrame, tt))))))))))),
          ),
        ),
      ),
    ),
  ),
  tt,
)

ltp_engine_run-IsSent_example :
    All (IsSent one_block) (ltp_engine_run link false rounds engine).0.deliveries
ltp_engine_run-IsSent_example =
    ltp_engine_run-IsSent one_block one_block_small link false rounds engine rounds_are_genuine
      engine-IsReached

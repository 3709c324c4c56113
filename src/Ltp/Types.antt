-- ===== src/Ltp/Types.antt =====
-- The segment types of kiss-interface/ltp.h. A `uint64_t` field is a number; the ranges are
-- hypotheses where they matter.
use ion_dtn_terrestrial.Prelude.{ℕ, List, Option}
use ion_dtn_terrestrial.Prelude.Bits.{Bytes}

abbrev pub max_claims : ℕ
max_claims = 16

abbrev pub max_segment_buf : ℕ
max_segment_buf = 512

abbrev pub max_block_size : ℕ
max_block_size = 2048

pub data SegType : Type 0 where
  red_data red_data_cp red_data_eorp_cp green_data green_data_eob : SegType
  report report_ack : SegType
  cancel_by_sender cancel_ack_sender cancel_by_recvr cancel_ack_recvr : SegType

-- The values of the enumeration.
abbrev pub seg_code : SegType → ℕ
seg_code red_data = 0
seg_code red_data_cp = 1
seg_code red_data_eorp_cp = 2
seg_code green_data = 3
seg_code green_data_eob = 4
seg_code report = 8
seg_code report_ack = 9
seg_code cancel_by_sender = 12
seg_code cancel_ack_sender = 13
seg_code cancel_by_recvr = 14
seg_code cancel_ack_recvr = 15

pub record SegmentHdr : Type 0 where
  pub version : ℕ
  pub type : SegType
  pub sender_engine_id : ℕ
  pub session_number : ℕ
  pub hdr_ext_count : ℕ
  pub trailer_ext_count : ℕ

-- `payload` is the C field `data`: `none` is NULL, else the bytes from the pointer on.
pub record DataSegment : Type 0 where
  pub hdr : SegmentHdr
  pub client_svc_id : ℕ
  pub offset : ℕ
  pub len : ℕ
  pub cp_serial : ℕ
  pub rpt_serial : ℕ
  pub payload : Option Bytes

pub record Claim : Type 0 where
  pub offset : ℕ
  pub len : ℕ

-- `claims` is the filled part of the array, so `claim_count` is its length.
pub record ReportSegment : Type 0 where
  pub hdr : SegmentHdr
  pub rpt_serial : ℕ
  pub cp_serial : ℕ
  pub upper_bound : ℕ
  pub lower_bound : ℕ
  pub claims : List Claim

pub record ReportAckSegment : Type 0 where
  pub hdr : SegmentHdr
  pub rpt_serial : ℕ

pub record CancelSegment : Type 0 where
  pub hdr : SegmentHdr
  pub reason : ℕ

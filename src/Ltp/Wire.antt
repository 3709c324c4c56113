-- ===== src/Ltp/Wire.antt =====
-- The wire format of the segments, written as the bytes that stand one after the other, and the
-- encoders against it.
use ion_dtn_terrestrial.Prelude.{
  ℕ, ◌+◌, ◌*◌, ◌≤◌, ◌<◌, ◌^◌, if◌then◌else◌, Bool-cases, take, length-take, inl, inr, [], ◌∷◌, ◌++◌,
  length, length-append, append-nil, Option, none, some, ◌>>=◌, ◌≡◌, arith,
}
use ion_dtn_terrestrial.Prelude.Bits.{Bytes, bit_or-shift}
use ion_dtn_terrestrial.Buffer.{
  Encodes, Writes, put-Writes, return-Writes, then-Writes, Encodes-Writes,
}
use ion_dtn_terrestrial.Sdnv.{IsU64}
use ion_dtn_terrestrial.Sdnv.Encode.{encoding, encoding_shape, sdnv_encode-encoding}
use ion_dtn_terrestrial.Ltp.Types.{SegType, red_data, seg_code, SegmentHdr, DataSegment}
use ion_dtn_terrestrial.Ltp.Encode.{
  put_sdnv, first_byte, put_ext_counts, ltp_encode_header, is_checkpoint, put_serials, put_payload,
  ltp_encode_data_segment,
}

-- The numbers are uint64s, the version has four bits and the counts are bytes.
pub record IsHeader (hdr : SegmentHdr) : Type 0 where
  pub version_fits : hdr.version < 16
  pub engine_fits : IsU64 hdr.sender_engine_id
  pub session_fits : IsU64 hdr.session_number

abbrev pub header_wire : SegmentHdr → Bytes
header_wire hdr =
    (hdr.version * 16 + seg_code hdr.type)
    ∷ (encoding hdr.sender_engine_id
        ++ (encoding hdr.session_number ++ (hdr.hdr_ext_count ∷ hdr.trailer_ext_count ∷ [])))

pub put_sdnv-Writes : (value : ℕ) → IsU64 value → Writes (put_sdnv value) (encoding value)
put_sdnv-Writes value h = put-Writes (record { at = λ n size. sdnv_encode-encoding value n h })

seg_code_lt : (t : SegType) → seg_code t < 16
seg_code_lt red_data = omega arith
seg_code_lt _ = omega arith

first_byte_lem :
    (hdr : SegmentHdr) → hdr.version < 16 → first_byte hdr ≡ hdr.version * 16 + seg_code hdr.type
first_byte_lem hdr h =
    ground (arith, seg_code_lt hdr.type, bit_or-shift 4 hdr.version (seg_code hdr.type))

put_ext_counts-Writes :
    (hdr : SegmentHdr)
    → Writes (put_ext_counts hdr) (hdr.hdr_ext_count ∷ hdr.trailer_ext_count ∷ [])
unfolding put_ext_counts
put_ext_counts-Writes hdr = record { at = λ out n size room. ground arith }

abbrev header_tail : SegmentHdr → Bytes → ℕ → Option Bytes
header_tail hdr out n = do
  out' ← put_sdnv hdr.sender_engine_id out n
  out'' ← put_sdnv hdr.session_number out' n
  put_ext_counts hdr out'' n

header_tail-Writes :
    (hdr : SegmentHdr)
    → IsHeader hdr
    → Writes (header_tail hdr) (
        encoding hdr.sender_engine_id
        ++ (encoding hdr.session_number ++ (hdr.hdr_ext_count ∷ hdr.trailer_ext_count ∷ [])))
header_tail-Writes hdr h =
    then-Writes (put_sdnv-Writes _ h.engine_fits)
      (then-Writes (put_sdnv-Writes _ h.session_fits) (put_ext_counts-Writes hdr))

pub header-Encodes :
    (hdr : SegmentHdr) → IsHeader hdr → Encodes (ltp_encode_header hdr) (header_wire hdr)
unfolding ltp_encode_header
header-Encodes hdr h = record {
  at = λ n size. ground (
    arith,
    first_byte_lem hdr h.version_fits,
    (header_tail-Writes hdr h).at (first_byte hdr ∷ []) n size,
    length-append (encoding hdr.sender_engine_id)
        (encoding hdr.session_number ++ (hdr.hdr_ext_count ∷ hdr.trailer_ext_count ∷ [])),
    length-append (encoding hdr.session_number) (hdr.hdr_ext_count ∷ hdr.trailer_ext_count ∷ []),
    encoding_shape hdr.sender_engine_id,
    encoding_shape hdr.session_number,
  );
}

-- Well-formed segments: the numbers are uint64s, and `data` points to `length` bytes at least,
-- fewer than 2^63.
pub record IsDataSegment (seg : DataSegment) : Type 0 where
  pub header : IsHeader seg.hdr
  pub client_fits : IsU64 seg.client_svc_id
  pub offset_fits : IsU64 seg.offset
  pub cp_serial_fits : IsU64 seg.cp_serial
  pub rpt_serial_fits : IsU64 seg.rpt_serial
  pub len_fits : seg.len < 2 ^ 63
  pub bytes : Bytes
  pub points_to : seg.payload ≡ some bytes
  pub holds : seg.len ≤ length bytes

abbrev pub serials_wire : DataSegment → Bytes
serials_wire seg =
    if is_checkpoint seg.hdr.type then encoding seg.cp_serial ++ encoding seg.rpt_serial else []

abbrev pub payload_of : Option Bytes → Bytes
payload_of none = []
payload_of (some bytes) = bytes

abbrev pub data_wire : DataSegment → Bytes
data_wire seg =
    header_wire seg.hdr
    ++ (encoding seg.client_svc_id
        ++ (encoding seg.offset
            ++ (encoding seg.len ++ (serials_wire seg ++ take seg.len (payload_of seg.payload)))))

put_serials-Writes :
    (seg : DataSegment) → IsDataSegment seg → Writes (put_serials seg) (serials_wire seg)
unfolding put_serials
put_serials-Writes seg h = record {
  at = λ out n size room. elim (Bool-cases (is_checkpoint seg.hdr.type)) [
    | inl cp ↦ rw cp (
        (then-Writes (put_sdnv-Writes _ h.cp_serial_fits) (put_sdnv-Writes _ h.rpt_serial_fits)).at
          out n size room)
    | inr plain ↦ rw plain (return-Writes.at out n size room)
  ];
}

put_payload-Writes :
    (seg : DataSegment)
    → IsDataSegment seg
    → Writes (put_payload seg) (take seg.len (payload_of seg.payload))
unfolding put_payload
put_payload-Writes seg h = record {
  at = λ out n size room.
      ground (arith, h.len_fits, h.points_to, h.holds, length-take seg.len h.bytes, append-nil out);
}

-- The encoder of a data segment writes the wire format exactly when it fits.
pub ltp_encode_data_segment-Encodes :
    (seg : DataSegment) → IsDataSegment seg → Encodes (ltp_encode_data_segment seg) (data_wire seg)
unfolding ltp_encode_data_segment
ltp_encode_data_segment-Encodes seg h = Encodes-Writes (
    then-Writes (put-Writes (header-Encodes seg.hdr h.header)) (
      then-Writes (put_sdnv-Writes _ h.client_fits) (
        then-Writes (put_sdnv-Writes _ h.offset_fits) (
          then-Writes (put_sdnv-Writes seg.len (omega (arith, h.len_fits)))
            (then-Writes (put_serials-Writes seg h) (put_payload-Writes seg h))))))

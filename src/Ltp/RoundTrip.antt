-- ===== src/Ltp/RoundTrip.antt =====
-- The decoders of ltp.c on what its encoders write.
use ion_dtn_terrestrial.Prelude.{
  ℕ, ◌+◌, ◌*◌, ◌/◌, ◌%◌, ◌≤◌, ◌<◌, ltb, if◌then◌else◌, take, length-take, [], ◌∷◌, ◌++◌, length,
  length-append, append_assoc, none, some, ◌≡◌, refl, arith,
}
use ion_dtn_terrestrial.Prelude.Bits.{Bytes}
use ion_dtn_terrestrial.Buffer.{IsSize, Encodes-eq-some}
use ion_dtn_terrestrial.Sdnv.{int64_max}
use ion_dtn_terrestrial.Sdnv.Encode.{encoding, encoding_shape}
use ion_dtn_terrestrial.Sdnv.Decode.{read_sdnv-encoding}
use ion_dtn_terrestrial.Ltp.Types.{SegType, red_data, seg_code, SegmentHdr, DataSegment}
use ion_dtn_terrestrial.Ltp.Encode.{is_checkpoint, ltp_encode_data_segment}
use ion_dtn_terrestrial.Ltp.Decode.{
  seg_type, ltp_decode_segment, read_serials, ltp_decode_data_content,
}
use ion_dtn_terrestrial.Ltp.Wire.{
  IsHeader, header_wire, IsDataSegment, serials_wire, payload_of, ltp_encode_data_segment-Encodes,
}

-- A header that the decoder can read: no header extensions, and numbers up to INT64_MAX.
pub record IsReadable (hdr : SegmentHdr) : Type 0 where
  pub header : IsHeader hdr
  pub engine_readable : hdr.sender_engine_id ≤ int64_max
  pub session_readable : hdr.session_number ≤ int64_max
  pub no_extensions : hdr.hdr_ext_count ≡ 0

seg_type-code : (t : SegType) → seg_type (seg_code t) ≡ some t
unfolding seg_type
seg_type-code red_data = refl
seg_type-code _ = refl

seg_code_lt : (t : SegType) → seg_code t < 16
seg_code_lt red_data = omega arith
seg_code_lt _ = omega arith

first_fields :
    (version : ℕ) (t : SegType)
    → version < 16
    → ((version * 16 + seg_code t) % 16 ≡ seg_code t)
      × ((version * 16 + seg_code t) / 16 % 16 ≡ version)
first_fields version t h = omega (arith, seg_code_lt t)

pub decode-header :
    (hdr : SegmentHdr) (body : Bytes) (body_size : ℕ)
    → IsReadable hdr
    → length body ≤ body_size
    → ltp_decode_segment (header_wire hdr ++ body) body_size ≡ some (hdr, body)
unfolding ltp_decode_segment
decode-header hdr body body_size h room =
    let counts = hdr.hdr_ext_count ∷ hdr.trailer_ext_count ∷ [] in
    ground (
      arith,
      h.no_extensions,
      append_assoc (encoding hdr.sender_engine_id) (encoding hdr.session_number ++ counts) body,
      append_assoc (encoding hdr.session_number) counts body,
      length-append (encoding hdr.sender_engine_id)
          (encoding hdr.session_number ++ (counts ++ body)),
      length-append (encoding hdr.session_number) (counts ++ body),
      encoding_shape hdr.sender_engine_id,
      encoding_shape hdr.session_number,
      first_fields hdr.version hdr.type h.header.version_fits,
      seg_type-code hdr.type,
      read_sdnv-encoding hdr.sender_engine_id (encoding hdr.session_number ++ (counts ++ body))
          h.engine_readable,
      read_sdnv-encoding hdr.session_number (counts ++ body) h.session_readable,
    )

read_serials-wire :
    (seg : DataSegment) (rest : Bytes)
    → seg.cp_serial ≤ int64_max
    → seg.rpt_serial ≤ int64_max
    → read_serials seg.hdr.type (serials_wire seg ++ rest)
      ≡ some (if is_checkpoint seg.hdr.type then (seg.cp_serial, seg.rpt_serial) else (0, 0), rest)
unfolding read_serials
read_serials-wire seg rest cp rpt = ground (
  arith,
  append_assoc (encoding seg.cp_serial) (encoding seg.rpt_serial) rest,
  read_sdnv-encoding seg.cp_serial (encoding seg.rpt_serial ++ rest) cp,
  read_sdnv-encoding seg.rpt_serial rest rpt,
)

-- What arrives of a data segment: serials only with a checkpoint, and the data of the given
-- length, or NULL for none.
abbrev pub as_received : DataSegment → DataSegment
as_received seg = record seg {
  cp_serial = if is_checkpoint seg.hdr.type then seg.cp_serial else 0;
  rpt_serial = if is_checkpoint seg.hdr.type then seg.rpt_serial else 0;
  payload = if ltb 0 seg.len then some (take seg.len (payload_of seg.payload)) else none;
}

-- A data segment whose numbers the decoder can read.
pub record IsSendable (seg : DataSegment) : Type 0 where
  pub segment : IsDataSegment seg
  pub header : IsReadable seg.hdr
  pub client_readable : seg.client_svc_id ≤ int64_max
  pub offset_readable : seg.offset ≤ int64_max
  pub cp_readable : seg.cp_serial ≤ int64_max
  pub rpt_readable : seg.rpt_serial ≤ int64_max

abbrev data_body : DataSegment → Bytes
data_body seg =
    encoding seg.client_svc_id
    ++ (encoding seg.offset
        ++ (encoding seg.len ++ (serials_wire seg ++ take seg.len (payload_of seg.payload))))

decode-data_body :
    (seg : DataSegment)
    → IsSendable seg
    → ltp_decode_data_content (data_body seg) seg.hdr ≡ some (as_received seg)
unfolding ltp_decode_data_content
decode-data_body seg h =
    let raw = take seg.len (payload_of seg.payload) in
    let whole : length raw ≡ seg.len =
      ground (arith, h.segment.points_to, h.segment.holds, length-take seg.len h.segment.bytes) in
    ground (
      arith,
      whole,
      read_sdnv-encoding seg.client_svc_id
          (encoding seg.offset ++ (encoding seg.len ++ (serials_wire seg ++ raw)))
          h.client_readable,
      read_sdnv-encoding seg.offset (encoding seg.len ++ (serials_wire seg ++ raw))
          h.offset_readable,
      read_sdnv-encoding seg.len (serials_wire seg ++ raw) (omega (arith, h.segment.len_fits)),
      read_serials-wire seg raw h.cp_readable h.rpt_readable,
    )

-- A data segment that the encoder wrote, with a version below 16, no header extensions, all numbers
-- at most INT64_MAX and the data there, is decoded to the same header and the same content: the
-- serials are kept if it is a checkpoint and are 0 otherwise, and the data are the first `length`
-- bytes that the sender pointed to. (Larger numbers are written, but refused by the decoder.)
pub decode-encode_data_segment :
    (seg : DataSegment) (size body_size : ℕ) {bytes : Bytes}
    → IsSendable seg
    → IsSize size
    → size ≤ body_size
    → ltp_encode_data_segment seg size ≡ some bytes
    → (body : Bytes) × (ltp_decode_segment bytes body_size ≡ some (seg.hdr, body))
      × (ltp_decode_data_content body seg.hdr ≡ some (as_received seg))
decode-encode_data_segment seg size body_size h small room e =
    let (same, fits) =
      Encodes-eq-some size (ltp_encode_data_segment-Encodes seg h.segment) small e in
    let split = length-append (header_wire seg.hdr) (data_body seg) in
    (
      data_body seg,
      rw same (decode-header seg.hdr (data_body seg) body_size h.header (omega arith)),
      decode-data_body seg h,
    )

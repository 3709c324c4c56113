-- ===== src/Bp/RoundTrip.antt =====
-- Bundles of kiss-interface/bp.c: what is encoded is decoded, with whatever follows it.
use ion_dtn_terrestrial.Prelude.{
  ℕ, ◌^◌, ◌≤◌, ◌<◌, false, ltb, if◌then◌else◌, Bool-cases, inl, inr, [], ◌∷◌, ◌++◌, length,
  length-append, append_assoc, some, ◌≡◌, ◌∙◌, refl, ap, arith,
}
use ion_dtn_terrestrial.Prelude.Bits.{Bytes, low_bits, shr}
use ion_dtn_terrestrial.Sdnv.{IsU64}
use ion_dtn_terrestrial.Buffer.{IsSize, Encodes-eq-some}
use ion_dtn_terrestrial.Cbor.{cbor_is_indef_array, cbor_is_break}
use ion_dtn_terrestrial.Cbor.Head.{head_wire}
use ion_dtn_terrestrial.Cbor.Items.{string_wire}
use ion_dtn_terrestrial.Bp.{bp_version, bp_crc16, Primary, Bundle, is_fragment}
use ion_dtn_terrestrial.Bp.Decode.{
  read_fragment, skip_crc, read_primary, read_payload, bp_decode_bundle,
}
use ion_dtn_terrestrial.Bp.Encode.{PrimaryArgs, encode_blocks, bp_encode_bundle, bp_encode_fragment}
use ion_dtn_terrestrial.Bp.Wire.{
  eid_wire, fields_wire, fragment_wire, crc_wire, primary_wire, payload_wire, bundle_wire,
  encode_blocks-Encodes,
}
use ion_dtn_terrestrial.Bp.Items.{
  read_uint-wire, read_array-wire, read_bstr-wire, IsEid, eid_decode-wire,
}

-- What the encoder is given: numbers of 64 bits, and endpoints that fit.
pub record IsPrimary (p : PrimaryArgs) : Type 0 where
  pub flags_fit : IsU64 p.flags
  pub src_fits : IsEid p.src
  pub dst_fits : IsEid p.dst
  pub lifetime_fits : IsU64 p.lifetime_ms
  pub seq_fits : IsU64 p.seq
  pub time_fits : IsU64 p.creation_time
  pub offset_fits : IsU64 p.frag_offset
  pub total_fits : IsU64 p.total_adu

-- What arrives of the primary block: reports go to the source.
abbrev pub sent_primary : PrimaryArgs → Primary
sent_primary p = record {
  flags = p.flags;
  dst = p.dst;
  src = p.src;
  report_to = p.src;
  timestamp = record { time = p.creation_time; seq = p.seq };
  lifetime_ms = p.lifetime_ms;
  fragment_offset = if is_fragment p.flags then p.frag_offset else 0;
  total_adu_len = if is_fragment p.flags then p.total_adu else 0;
  crc_type = 1;
}

read_fragment-wire :
    (p : PrimaryArgs) (rest : Bytes)
    → IsPrimary p
    → read_fragment p.flags (fragment_wire p ++ rest)
      ≡ some (
        (
          (if is_fragment p.flags then p.frag_offset else 0),
          (if is_fragment p.flags then p.total_adu else 0),
        ),
        rest,
      )
unfolding read_fragment
read_fragment-wire p rest h = elim (Bool-cases (is_fragment p.flags)) [
  | inl part ↦
      rw
        (
          part,
          append_assoc (head_wire 0 p.frag_offset) (head_wire 0 p.total_adu) rest,
          read_uint-wire p.frag_offset (head_wire 0 p.total_adu ++ rest) h.offset_fits,
          read_uint-wire p.total_adu rest h.total_fits,
        )
        refl
  | inr whole ↦ rw whole refl
]

skip_crc-wire : (out rest : Bytes) → skip_crc 1 (crc_wire out ++ rest) ≡ some rest
unfolding skip_crc head_wire
skip_crc-wire out rest =
    let crc = bp_crc16 (out ++ (0x42 ∷ 0 ∷ 0 ∷ [])) in
    rw (read_bstr-wire (low_bits (shr crc 8) 8 ∷ low_bits crc 8 ∷ []) rest (omega arith)) refl

read_primary-wire :
    (p : PrimaryArgs) (rest : Bytes)
    → IsPrimary p
    → read_primary (primary_wire p ++ rest) ≡ some (sent_primary p, rest)
unfolding read_primary
read_primary-wire p rest h =
    let fields = if is_fragment p.flags then 11 else 9 in
    let few : IsU64 fields = ground arith in
    let body = fields_wire p ++ fragment_wire p in
    let r12 = crc_wire body ++ rest in
    let r11 = fragment_wire p ++ r12 in
    let r10 = head_wire 0 p.lifetime_ms ++ r11 in
    let r9 = head_wire 0 p.seq ++ r10 in
    let r8 = head_wire 0 p.creation_time ++ r9 in
    let r7 = head_wire 4 2 ++ r8 in
    let r6 = eid_wire p.src ++ r7 in
    let r5 = eid_wire p.src ++ r6 in
    let r4 = eid_wire p.dst ++ r5 in
    let r3 = head_wire 0 1 ++ r4 in
    let r2 = head_wire 0 p.flags ++ r3 in
    let r1 = head_wire 0 bp_version ++ r2 in
    let parts : primary_wire p ++ rest ≡ head_wire 4 fields ++ r1 = simp append_assoc in
    rw
      (
        parts,
        read_array-wire fields r1 few,
        read_uint-wire bp_version r2 (omega arith),
        read_uint-wire p.flags r3 h.flags_fit,
        read_uint-wire 1 r4 (omega arith),
        eid_decode-wire p.dst r5 h.dst_fits,
        eid_decode-wire p.src r6 h.src_fits,
        eid_decode-wire p.src r7 h.src_fits,
        read_array-wire 2 r8 (omega arith),
        read_uint-wire p.creation_time r9 h.time_fits,
        read_uint-wire p.seq r10 h.seq_fits,
        read_uint-wire p.lifetime_ms r11 h.lifetime_fits,
        read_fragment-wire p r12 h,
        skip_crc-wire body rest,
      )
      refl

read_payload-wire :
    (payload rest : Bytes)
    → length payload < 2 ^ 63
    → read_payload (payload_wire payload ++ rest)
      ≡ some (record { bytes = payload ++ rest; len = length payload }, rest)
unfolding read_payload
read_payload-wire payload rest h =
    let r5 = string_wire 2 payload ++ rest in
    let r4 = head_wire 0 0 ++ r5 in
    let r3 = head_wire 0 0 ++ r4 in
    let r2 = head_wire 0 1 ++ r3 in
    let r1 = head_wire 0 1 ++ r2 in
    let parts : payload_wire payload ++ rest ≡ head_wire 4 5 ++ r1 = simp append_assoc in
    rw
      (
        parts,
        read_array-wire 5 r1 (omega arith),
        read_uint-wire 1 r2 (omega arith),
        read_uint-wire 1 r3 (omega arith),
        read_uint-wire 0 r4 (omega arith),
        read_uint-wire 0 r5 (omega arith),
        read_bstr-wire payload rest h,
      )
      refl

-- What arrives: the payload starts where the pointer points.
abbrev pub sent_bundle : PrimaryArgs → Bytes → Bytes → Bundle
sent_bundle p payload rest = record {
  primary = sent_primary p;
  payload = payload ++ (0xFF ∷ rest);
  payload_len = length payload;
}

payload_wire-long : (payload rest : Bytes) → 3 ≤ length (payload_wire payload ++ rest)
unfolding head_wire
payload_wire-long payload rest = omega arith

-- The payload is a part of what is written.
bundle_wire-small :
    (p : PrimaryArgs) (payload : Bytes) → length payload ≤ length (bundle_wire p payload)
unfolding head_wire
bundle_wire-small p payload =
    let tail = payload_wire payload ++ (0xFF ∷ []) in
    omega (
      arith,
      length-append (primary_wire p) tail,
      length-append (string_wire 2 payload) (0xFF ∷ []),
      length-append (head_wire 2 (length payload)) payload,
    )

decode-bundle_wire :
    (p : PrimaryArgs) (payload rest : Bytes)
    → IsPrimary p
    → length payload < 2 ^ 63
    → bp_decode_bundle (bundle_wire p payload ++ rest) ≡ some (sent_bundle p payload rest, rest)
unfolding bp_decode_bundle cbor_is_indef_array cbor_is_break
decode-bundle_wire p payload rest h small =
    let r2 = payload_wire payload ++ (0xFF ∷ rest) in
    let r1 = primary_wire p ++ r2 in
    let parts : bundle_wire p payload ++ rest ≡ 0x9F ∷ r1 = simp append_assoc in
    let long : ltb (length (0x9F ∷ r1)) 3 ≡ false =
      ground (arith, length-append (primary_wire p) r2, payload_wire-long payload (0xFF ∷ rest)) in
    ap bp_decode_bundle parts
    ∙ rw (long, read_primary-wire p r2 h, read_payload-wire payload (0xFF ∷ rest) small) refl

-- A bundle that was encoded is decoded to the same fields and payload, whatever follows it.
decode-encode_blocks :
    (p : PrimaryArgs) (payload : Bytes) (size : ℕ) {bytes : Bytes} (rest : Bytes)
    → IsPrimary p
    → IsSize size
    → encode_blocks p payload size ≡ some bytes
    → bp_decode_bundle (bytes ++ rest) ≡ some (sent_bundle p payload rest, rest)
decode-encode_blocks p payload size rest h room e =
    let (same, fits) = Encodes-eq-some size (encode_blocks-Encodes p payload) room e in
    let small = bundle_wire-small p payload in
    rw same (decode-bundle_wire p payload rest h (omega (arith, small, fits, room)))

abbrev pub whole_args : Bytes → Bytes → ℕ → ℕ → ℕ → PrimaryArgs
whole_args src dst lifetime_ms seq now = record {
  src = src;
  dst = dst;
  flags = 0;
  lifetime_ms = lifetime_ms;
  seq = seq;
  creation_time = now;
  frag_offset = 0;
  total_adu = 0;
}

abbrev pub fragment_args : Bytes → Bytes → ℕ → ℕ → ℕ → ℕ → ℕ → PrimaryArgs
fragment_args src dst lifetime_ms seq fragment_offset total_adu_len creation_time = record {
  src = src;
  dst = dst;
  flags = 1;
  lifetime_ms = lifetime_ms;
  seq = seq;
  creation_time = creation_time;
  frag_offset = fragment_offset;
  total_adu = total_adu_len;
}

-- For endpoints that are "dtn:" URIs shorter than 64 bytes without a NUL, and times, lifetime and
-- sequence number that are uint64s: an encoded bundle is decoded, whatever follows it, to the same
-- endpoints, times, sequence number, lifetime and payload, with reports to the source. (An endpoint
-- of another scheme is encoded too, but comes back with "dtn:" before it.)
pub decode-encode_bundle :
    (src dst payload : Bytes) (lifetime_ms seq now size : ℕ) {bytes : Bytes} (rest : Bytes)
    → IsEid src
    → IsEid dst
    → IsU64 lifetime_ms
    → IsU64 seq
    → IsU64 now
    → IsSize size
    → bp_encode_bundle src dst payload lifetime_ms seq now size ≡ some bytes
    → bp_decode_bundle (bytes ++ rest)
      ≡ some (sent_bundle (whole_args src dst lifetime_ms seq now) payload rest, rest)
unfolding bp_encode_bundle
decode-encode_bundle src dst payload lifetime_ms seq now size rest from to life seqs times room e =
    decode-encode_blocks (whole_args src dst lifetime_ms seq now) payload size rest
      (record {
        flags_fit = omega arith;
        src_fits = from;
        dst_fits = to;
        lifetime_fits = life;
        seq_fits = seqs;
        time_fits = times;
        offset_fits = omega arith;
        total_fits = omega arith;
      })
      room e

-- For endpoints that are "dtn:" URIs shorter than 64 bytes without a NUL, and numbers that are
-- uint64s: an encoded fragment is decoded, whatever follows it, with its offset and the length of
-- the whole besides what a bundle keeps. (An endpoint of another scheme is encoded too, but comes
-- back with "dtn:" before it.)
pub decode-encode_fragment :
    (src dst payload : Bytes) (lifetime_ms seq fragment_offset total_adu_len creation_time size : ℕ)
    {bytes : Bytes} (rest : Bytes)
    → IsPrimary (fragment_args src dst lifetime_ms seq fragment_offset total_adu_len creation_time)
    → IsSize size
    → bp_encode_fragment src dst payload lifetime_ms seq fragment_offset total_adu_len creation_time
        size
      ≡ some bytes
    → bp_decode_bundle (bytes ++ rest)
      ≡ some (
        sent_bundle
            (fragment_args src dst lifetime_ms seq fragment_offset total_adu_len creation_time)
            payload
            rest,
        rest,
      )
unfolding bp_encode_fragment
decode-encode_fragment src dst payload lifetime_ms seq fragment_offset total_adu_len creation_time
      size rest h room e =
    decode-encode_blocks
      (fragment_args src dst lifetime_ms seq fragment_offset total_adu_len creation_time) payload
      size rest h room e

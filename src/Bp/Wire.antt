-- ===== src/Bp/Wire.antt =====
-- The wire format of bundles, written as the bytes that stand one after the other, and the
-- encoders of kiss-interface/bp.c against it.
use ion_dtn_terrestrial.Prelude.{
  ℕ, if◌then◌else◌, Bool-cases, inl, inr, [], ◌∷◌, ◌++◌, length-append, arith,
}
use ion_dtn_terrestrial.Prelude.Bits.{Bytes, low_bits, shr}
use ion_dtn_terrestrial.Buffer.{
  Encodes, Writes, put-Writes, return-Writes, then-Writes, Encodes-Writes,
}
use ion_dtn_terrestrial.Cbor.Head.{head_wire}
use ion_dtn_terrestrial.Cbor.Items.{
  string_wire, uint-Encodes, array-Encodes, bstr-Encodes, tstr-Encodes, indef-Encodes,
  break-Encodes,
}
use ion_dtn_terrestrial.Bp.{bp_version, bp_crc16, is_fragment}
use ion_dtn_terrestrial.Bp.Encode.{
  put_uint, put_array, ssp_of, bp_eid_encode, PrimaryArgs, put_eid, put_fragment, put_crc,
  put_fields, encode_primary, encode_payload_block, encode_blocks,
}

abbrev pub eid_wire : Bytes → Bytes
eid_wire uri = head_wire 4 2 ++ (head_wire 0 1 ++ string_wire 3 (ssp_of uri))

abbrev pub fields_wire : PrimaryArgs → Bytes
fields_wire p =
    head_wire 4 (if is_fragment p.flags then 11 else 9)
    ++ (head_wire 0 bp_version
        ++ (head_wire 0 p.flags
            ++ (head_wire 0 1
                ++ (eid_wire p.dst
                    ++ (eid_wire p.src
                        ++ (eid_wire p.src
                            ++ (head_wire 4 2
                                ++ (head_wire 0 p.creation_time
                                    ++ (head_wire 0 p.seq ++ head_wire 0 p.lifetime_ms)))))))))

abbrev pub fragment_wire : PrimaryArgs → Bytes
fragment_wire p =
    if is_fragment p.flags then head_wire 0 p.frag_offset ++ head_wire 0 p.total_adu else []

-- The check sequence of `out` and of its own place, filled with zeros.
abbrev pub crc_wire : Bytes → Bytes
crc_wire out =
    let crc = bp_crc16 (out ++ (0x42 ∷ 0 ∷ 0 ∷ [])) in
    0x42 ∷ low_bits (shr crc 8) 8 ∷ low_bits crc 8 ∷ []

abbrev pub primary_wire : PrimaryArgs → Bytes
primary_wire p = let body = fields_wire p ++ fragment_wire p in body ++ crc_wire body

abbrev pub payload_wire : Bytes → Bytes
payload_wire payload =
    head_wire 4 5
    ++ (head_wire 0 1
        ++ (head_wire 0 1 ++ (head_wire 0 0 ++ (head_wire 0 0 ++ string_wire 2 payload))))

abbrev pub bundle_wire : PrimaryArgs → Bytes → Bytes
bundle_wire p payload = (0x9F ∷ []) ++ (primary_wire p ++ (payload_wire payload ++ (0xFF ∷ [])))

uint-Writes : (value : ℕ) → Writes (put_uint value) (head_wire 0 value)
uint-Writes value = put-Writes (uint-Encodes value)

array-Writes : (count : ℕ) → Writes (put_array count) (head_wire 4 count)
array-Writes count = put-Writes (array-Encodes count)

eid-Encodes : (uri : Bytes) → Encodes (bp_eid_encode uri) (eid_wire uri)
unfolding bp_eid_encode
eid-Encodes uri = Encodes-Writes (
    then-Writes (array-Writes 2)
      (then-Writes (uint-Writes 1) (put-Writes (tstr-Encodes (ssp_of uri)))))

eid-Writes : (uri : Bytes) → Writes (put_eid uri) (eid_wire uri)
eid-Writes uri = put-Writes (eid-Encodes uri)

fields-Writes : (p : PrimaryArgs) → Writes (put_fields p) (fields_wire p)
unfolding put_fields
fields-Writes p = then-Writes (array-Writes _) (
    then-Writes (uint-Writes bp_version) (
      then-Writes (uint-Writes p.flags) (
        then-Writes (uint-Writes 1) (
          then-Writes (eid-Writes p.dst) (
            then-Writes (eid-Writes p.src) (
              then-Writes (eid-Writes p.src) (
                then-Writes (array-Writes 2) (
                  then-Writes (uint-Writes p.creation_time)
                    (then-Writes (uint-Writes p.seq) (uint-Writes p.lifetime_ms))))))))))

fragment-Writes : (p : PrimaryArgs) → Writes (put_fragment p) (fragment_wire p)
unfolding put_fragment
fragment-Writes p = record {
  at = λ out n size room. elim (Bool-cases (is_fragment p.flags)) [
    | inl part ↦
        rw part
          ((then-Writes (uint-Writes p.frag_offset) (uint-Writes p.total_adu)).at out n size room)
    | inr whole ↦ rw whole (return-Writes.at out n size room)
  ];
}

primary-Encodes : (p : PrimaryArgs) → Encodes (encode_primary p) (primary_wire p)
unfolding encode_primary put_crc
primary-Encodes p = record {
  at = λ n size.
      let body = fields_wire p ++ fragment_wire p in
      ground (
        arith,
        (Encodes-Writes (then-Writes (fields-Writes p) (fragment-Writes p))).at n size,
        length-append body (crc_wire body),
      );
}

payload-Encodes : (payload : Bytes) → Encodes (encode_payload_block payload) (payload_wire payload)
unfolding encode_payload_block
payload-Encodes payload = Encodes-Writes (
    then-Writes (array-Writes 5) (
      then-Writes (uint-Writes 1) (
        then-Writes (uint-Writes 1) (
          then-Writes (uint-Writes 0)
            (then-Writes (uint-Writes 0) (put-Writes (bstr-Encodes payload)))))))

-- The encoder writes a bundle in the wire format exactly when it fits.
pub encode_blocks-Encodes :
    (p : PrimaryArgs) (payload : Bytes) → Encodes (encode_blocks p payload) (bundle_wire p payload)
unfolding encode_blocks
encode_blocks-Encodes p payload = Encodes-Writes (
    then-Writes (put-Writes indef-Encodes) (
      then-Writes (put-Writes (primary-Encodes p))
        (then-Writes (put-Writes (payload-Encodes payload)) (put-Writes break-Encodes))))

-- ===== src/Transfer/Sizes.antt =====
-- How long the bundles of kiss-interface/main.c are.
use ion_dtn_terrestrial.Prelude.{
  ℕ, ◌+◌, ◌≤◌, if◌then◌else◌, [], ◌∷◌, ◌++◌, length, length-append, arith,
}
use ion_dtn_terrestrial.Prelude.Bits.{Bytes}
use ion_dtn_terrestrial.Cbor.Head.{head_wire, head_wire_shape}
use ion_dtn_terrestrial.Cbor.Items.{string_wire}
use ion_dtn_terrestrial.Bp.{bp_version, is_fragment}
use ion_dtn_terrestrial.Bp.Encode.{ssp_of, PrimaryArgs}
use ion_dtn_terrestrial.Bp.Wire.{
  eid_wire, fields_wire, fragment_wire, crc_wire, primary_wire, payload_wire, bundle_wire,
}
use ion_dtn_terrestrial.Bp.Items.{IsEid}

head_le : (major arg : ℕ) (tail : Bytes) → length (head_wire major arg ++ tail) ≤ 9 + length tail
head_le major arg tail =
    omega (arith, length-append (head_wire major arg) tail, head_wire_shape major arg)

string_le : (major : ℕ) (bytes : Bytes) → length (string_wire major bytes) ≤ 9 + length bytes
string_le major bytes = head_le major (length bytes) bytes

eid_le : (uri : Bytes) → IsEid uri → length (eid_wire uri) ≤ 87
unfolding ssp_of
eid_le uri h =
    let ssp = h.ssp in
    rw h.is_dtn (
      omega (
        arith,
        head_le 4 2 (head_wire 0 1 ++ string_wire 3 ssp),
        head_le 0 1 (string_wire 3 ssp),
        string_le 3 ssp,
        h.fits,
      ))

fields_le : (p : PrimaryArgs) → IsEid p.src → IsEid p.dst → length (fields_wire p) ≤ 333
fields_le p from to =
    let t10 = head_wire 0 p.lifetime_ms in
    let t9 = head_wire 0 p.seq ++ t10 in
    let t8 = head_wire 0 p.creation_time ++ t9 in
    let t7 = head_wire 4 2 ++ t8 in
    let t6 = eid_wire p.src ++ t7 in
    let t5 = eid_wire p.src ++ t6 in
    let t4 = eid_wire p.dst ++ t5 in
    let t3 = head_wire 0 1 ++ t4 in
    let t2 = head_wire 0 p.flags ++ t3 in
    let t1 = head_wire 0 bp_version ++ t2 in
    let numbers : length t7 ≤ 36 = omega (
      arith,
      head_le 4 2 t8,
      head_le 0 p.creation_time t9,
      head_le 0 p.seq t10,
      head_wire_shape 0 p.lifetime_ms,
    ) in
    let endpoints : length t4 ≤ 297 = omega (
      arith,
      numbers,
      eid_le p.src from,
      eid_le p.dst to,
      length-append (eid_wire p.src) t7,
      length-append (eid_wire p.src) t6,
      length-append (eid_wire p.dst) t5,
    ) in
    omega (
      arith,
      endpoints,
      head_le 4 (if is_fragment p.flags then 11 else 9) t1,
      head_le 0 bp_version t2,
      head_le 0 p.flags t3,
      head_le 0 1 t4,
    )

fragment_le : (p : PrimaryArgs) → length (fragment_wire p) ≤ 18
fragment_le p =
    ground (arith, head_le 0 p.frag_offset (head_wire 0 p.total_adu), head_wire_shape 0 p.total_adu)

-- All but the payload takes fewer than 500 bytes.
pub bundle_wire_le :
    (p : PrimaryArgs) (payload : Bytes)
    → IsEid p.src
    → IsEid p.dst
    → length (bundle_wire p payload) ≤ 500 + length payload
bundle_wire_le p payload from to =
    let body = fields_wire p ++ fragment_wire p in
    let block = payload_wire payload in
    let s5 = string_wire 2 payload in
    let s4 = head_wire 0 0 ++ s5 in
    let s3 = head_wire 0 0 ++ s4 in
    let s2 = head_wire 0 1 ++ s3 in
    let payload_block : length block ≤ 54 + length payload = omega (
      arith,
      head_le 4 5 (head_wire 0 1 ++ s2),
      head_le 0 1 s2,
      head_le 0 1 s3,
      head_le 0 0 s4,
      head_le 0 0 s5,
      string_le 2 payload,
    ) in
    let primary : length (primary_wire p) ≤ 354 = omega (
      arith,
      fields_le p from to,
      fragment_le p,
      length-append (fields_wire p) (fragment_wire p),
      length-append body (crc_wire body),
    ) in
    omega (
      arith,
      primary,
      payload_block,
      length-append (primary_wire p) (block ++ (0xFF ∷ [])),
      length-append block (0xFF ∷ []),
    )

-- ===== src/Bp/Runs.antt =====
-- Runs of kiss-interface/bp.c at concrete inputs, and its theorems applied at them.
use ion_dtn_terrestrial.Prelude.{true, List, [], ◌∷◌, ◌++◌, none, some, ◌≡◌, refl, ap, arith}
use ion_dtn_terrestrial.Prelude.Bits.{Bytes}
use ion_dtn_terrestrial.Buffer.{put}
use ion_dtn_terrestrial.Cbor.{
  cbor_encode_indef_array_start, cbor_encode_array, cbor_encode_uint, cbor_encode_tstr,
  cbor_encode_bstr, cbor_encode_break,
}
use ion_dtn_terrestrial.Cbor.Head.{head_wire}
use ion_dtn_terrestrial.Bp.{bp_crc16, bp_dtn_time_now, bp_fragment_count, Timestamp, Bundle}
use ion_dtn_terrestrial.Bp.Decode.{bp_decode_bundle}
use ion_dtn_terrestrial.Bp.Encode.{
  ssp_of, put_fragment, put_crc, put_fields, encode_primary, encode_payload_block, encode_blocks,
  bp_eid_encode, bp_encode_bundle, bp_encode_fragment,
}
use ion_dtn_terrestrial.Bp.Wire.{bundle_wire}
use ion_dtn_terrestrial.Bp.RoundTrip.{
  sent_bundle, whole_args, fragment_args, decode-encode_bundle, decode-encode_fragment,
}
use ion_dtn_terrestrial.Bp.Items.{IsEid}
use ion_dtn_terrestrial.Bp.Reassembly.{
  Reassembly, bp_reassembly_init, bp_reassembly_add, stored_bytes,
}
use ion_dtn_terrestrial.Bp.Reassembly.Counting.{all_set}
use ion_dtn_terrestrial.Bp.Reassembly.Complete.{
  IsPart, covered, after, reassembly_add-parts, reassembly_add_complete,
}
use ion_dtn_terrestrial.Bp.Reassembly.Bounds.{
  IsForeign, IsReassembly, init-IsReassembly, reassembly_add-IsReassembly, add_all, add_all-foreign,
}

-- "123456789", whose CRC-16/CCITT-FALSE is 0x29B1.
check_value : bp_crc16 (b'1' ∷ b'2' ∷ b'3' ∷ b'4' ∷ b'5' ∷ b'6' ∷ b'7' ∷ b'8' ∷ b'9' ∷ []) ≡ 0x29B1
unfolding bp_crc16
check_value = refl

before_the_epoch : bp_dtn_time_now 946684799 5 ≡ 0
unfolding bp_dtn_time_now
before_the_epoch = refl

count_fragments : bp_fragment_count 1025 512 ≡ some 3
unfolding bp_fragment_count
count_fragments = refl

-- "dtn://a" and "dtn://b"
abbrev here : Bytes
here = b'd' ∷ b't' ∷ b'n' ∷ b':' ∷ b'/' ∷ b'/' ∷ b'a' ∷ []

abbrev there : Bytes
there = b'd' ∷ b't' ∷ b'n' ∷ b':' ∷ b'/' ∷ b'/' ∷ b'b' ∷ []

encode_here : bp_eid_encode here 6 ≡ some (0x82 ∷ 0x01 ∷ 0x63 ∷ b'/' ∷ b'/' ∷ b'a' ∷ [])
unfolding bp_eid_encode put cbor_encode_array cbor_encode_uint cbor_encode_tstr ssp_of
encode_here = refl

here-IsEid : IsEid here
here-IsEid = record {
  ssp = b'/' ∷ b'/' ∷ b'a' ∷ [];
  is_dtn = refl;
  fits = omega arith;
  no_nul = omega arith;
}

there-IsEid : IsEid there
there-IsEid = record {
  ssp = b'/' ∷ b'/' ∷ b'b' ∷ [];
  is_dtn = refl;
  fits = omega arith;
  no_nul = omega arith;
}

abbrev bundle_bytes : Bytes
bundle_bytes = bundle_wire (whole_args here there 60000 7 1000) (1 ∷ 2 ∷ 3 ∷ [])

encode_bundle : bp_encode_bundle here there (1 ∷ 2 ∷ 3 ∷ []) 60000 7 1000 64 ≡ some bundle_bytes
unfolding bp_encode_bundle encode_blocks put cbor_encode_indef_array_start encode_primary put_fields
    cbor_encode_array cbor_encode_uint bp_eid_encode cbor_encode_tstr ssp_of put_fragment put_crc
    encode_payload_block cbor_encode_bstr cbor_encode_break head_wire
encode_bundle = refl

decode-encode_bundle_example :
    bp_decode_bundle (bundle_bytes ++ (9 ∷ []))
    ≡ some (sent_bundle (whole_args here there 60000 7 1000) (1 ∷ 2 ∷ 3 ∷ []) (9 ∷ []), 9 ∷ [])
decode-encode_bundle_example =
    decode-encode_bundle here there (1 ∷ 2 ∷ 3 ∷ []) 60000 7 1000 64 (9 ∷ []) here-IsEid there-IsEid
      (omega arith) (omega arith) (omega arith) (omega arith) encode_bundle

abbrev fragment_bytes : Bytes
fragment_bytes = bundle_wire (fragment_args here there 60000 7 2 3 1000) (3 ∷ [])

encode_fragment : bp_encode_fragment here there (3 ∷ []) 60000 7 2 3 1000 64 ≡ some fragment_bytes
unfolding bp_encode_fragment encode_blocks put cbor_encode_indef_array_start encode_primary
    put_fields cbor_encode_array cbor_encode_uint bp_eid_encode cbor_encode_tstr ssp_of put_fragment
    put_crc encode_payload_block cbor_encode_bstr cbor_encode_break head_wire
encode_fragment = refl

decode-encode_fragment_example :
    bp_decode_bundle (fragment_bytes ++ [])
    ≡ some (sent_bundle (fragment_args here there 60000 7 2 3 1000) (3 ∷ []) [], [])
decode-encode_fragment_example =
    decode-encode_fragment here there (3 ∷ []) 60000 7 2 3 1000 64 []
      (record {
        flags_fit = omega arith;
        src_fits = here-IsEid;
        dst_fits = there-IsEid;
        lifetime_fits = omega arith;
        seq_fits = omega arith;
        time_fits = omega arith;
        offset_fits = omega arith;
        total_fits = omega arith;
      })
      (omega arith) encode_fragment

-- The application data 1, 2, 3, in two fragments that overlap.
abbrev adu : Bytes
adu = 1 ∷ 2 ∷ 3 ∷ []

abbrev front : Bundle
front = sent_bundle (fragment_args here there 60000 7 0 3 1000) (1 ∷ 2 ∷ []) []

abbrev back : Bundle
back = sent_bundle (fragment_args here there 60000 7 1 3 1000) (2 ∷ 3 ∷ []) []

abbrev both : List Bundle
both = front ∷ back ∷ []

front-IsPart : IsPart front.primary adu front
front-IsPart = record {
  fragment = refl;
  same_src = refl;
  same_time = refl;
  whole = refl;
  inside = omega arith;
  same_bytes = refl;
}

back-IsPart : IsPart front.primary adu back
back-IsPart = record {
  fragment = refl;
  same_src = refl;
  same_time = refl;
  whole = refl;
  inside = omega arith;
  same_bytes = refl;
}

reassembly_add-parts_example :
    (bp_reassembly_add (after (back ∷ [])) front).1 ≡ some (all_set (covered both) 3)
reassembly_add-parts_example =
    reassembly_add-parts front.primary adu front (back ∷ []) (front-IsPart, (back-IsPart, tt))
      (omega arith)

all_come : all_set (covered both) 3 ≡ true
unfolding all_set covered
all_come = refl

reassembly_add_complete_example :
    ((after both).total_adu_len ≡ 3) × (stored_bytes (after both).data_at 0 3 ≡ adu)
reassembly_add_complete_example =
    reassembly_add_complete front.primary adu front (back ∷ []) (front-IsPart, (back-IsPart, tt))
      (omega arith) all_come

reassembly_add-IsReassembly_example : IsReassembly (bp_reassembly_add bp_reassembly_init back).0
reassembly_add-IsReassembly_example =
    reassembly_add-IsReassembly bp_reassembly_init back init-IsReassembly (omega arith)

-- A fragment of the next bundle.
abbrev other : Bundle
other = sent_bundle (fragment_args here there 60000 8 0 3 2000) (1 ∷ 2 ∷ []) []

abbrev busy : Reassembly
busy = record bp_reassembly_init {
  active = true;
  src = here;
  timestamp = record { time = 1000; seq = 7 };
  total_adu_len = 3;
}

other-IsForeign : IsForeign busy other
other-IsForeign (src, timestamp) = omega (arith, ap Timestamp.seq timestamp)

add_all-foreign_example : add_all busy (other ∷ other ∷ []) ≡ (busy, none ∷ none ∷ [])
add_all-foreign_example =
    add_all-foreign busy (other ∷ other ∷ []) refl (other-IsForeign, (other-IsForeign, tt))

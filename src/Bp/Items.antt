-- ===== src/Bp/Items.antt =====
-- The items that the bundles of kiss-interface/bp.c are made of: what is encoded is decoded.
use ion_dtn_terrestrial.Prelude.{
  ℕ, ◌+◌, ◌%◌, ◌^◌, ◌<◌, false, leb, [], ◌∷◌, ◌++◌, length, drop-append, take, take-append,
  append_assoc, All, some, ◌≡◌, ◌∙◌, refl, ap, arith,
}
use ion_dtn_terrestrial.Prelude.Bits.{Bytes}
use ion_dtn_terrestrial.Sdnv.{IsU64}
use ion_dtn_terrestrial.Ax25.{c_string}
use ion_dtn_terrestrial.Cbor.{
  cbor_decode_uint, cbor_decode_array, cbor_decode_tstr, cbor_decode_bstr,
}
use ion_dtn_terrestrial.Cbor.Head.{head_wire}
use ion_dtn_terrestrial.Cbor.Items.{string_wire, decode_number-head_wire, decode_string-string_wire}
use ion_dtn_terrestrial.Bp.{max_eid_len, scheme}
use ion_dtn_terrestrial.Bp.Decode.{read_uint, read_array, read_tstr, read_bstr, bp_eid_decode}
use ion_dtn_terrestrial.Bp.Encode.{ssp_of}
use ion_dtn_terrestrial.Bp.Wire.{eid_wire}

pub read_uint-wire :
    (value : ℕ) (rest : Bytes)
    → IsU64 value
    → read_uint (head_wire 0 value ++ rest) ≡ some (value, rest)
unfolding read_uint cbor_decode_uint
read_uint-wire value rest h =
    rw (decode_number-head_wire 0 value rest h)
      (ap (λ buf. some (value, buf)) (drop-append (head_wire 0 value) rest))

pub read_array-wire :
    (count : ℕ) (rest : Bytes)
    → IsU64 count
    → read_array (head_wire 4 count ++ rest) ≡ some (count, rest)
unfolding read_array cbor_decode_array
read_array-wire count rest h =
    rw (decode_number-head_wire 4 count rest h)
      (ap (λ buf. some (count, buf)) (drop-append (head_wire 4 count) rest))

read_tstr-wire :
    (str rest : Bytes)
    → length str < 2 ^ 63
    → read_tstr (string_wire 3 str ++ rest)
      ≡ some (record { bytes = str ++ rest; len = length str }, rest)
unfolding read_tstr cbor_decode_tstr
read_tstr-wire str rest h = rw (decode_string-string_wire 3 str rest h) (
    ap (λ buf. some (record { bytes = str ++ rest; len = length str }, buf))
      (drop-append (string_wire 3 str) rest))

pub read_bstr-wire :
    (bytes rest : Bytes)
    → length bytes < 2 ^ 63
    → read_bstr (string_wire 2 bytes ++ rest)
      ≡ some (record { bytes = bytes ++ rest; len = length bytes }, rest)
unfolding read_bstr cbor_decode_bstr
read_bstr-wire bytes rest h = rw (decode_string-string_wire 2 bytes rest h) (
    ap (λ buf. some (record { bytes = bytes ++ rest; len = length bytes }, buf))
      (drop-append (string_wire 2 bytes) rest))

c_string_lem : (s : Bytes) → All (λ c. 0 < c) s → c_string s ≡ s
unfolding c_string
c_string_lem [] h = refl
c_string_lem (c ∷ s) (h, hs) = ground (arith, c_string_lem s hs)

-- An endpoint that fits `uri[64]` with its end: the scheme "dtn:", and no NUL.
pub record IsEid (uri : Bytes) : Type 0 where
  pub ssp : Bytes
  pub is_dtn : uri ≡ scheme ++ ssp
  pub fits : length ssp + 4 < max_eid_len
  pub no_nul : All (λ c. 0 < c) ssp

pub eid_decode-wire :
    (uri rest : Bytes) → IsEid uri → bp_eid_decode (eid_wire uri ++ rest) ≡ some (uri, rest)
unfolding bp_eid_decode ssp_of
eid_decode-wire uri rest h =
    let ssp = h.ssp in
    let small : (length ssp + 4) % 2 ^ 64 ≡ length ssp + 4 = omega (arith, h.fits) in
    let accepted : leb max_eid_len (length ssp + 4) ≡ false = ground (arith, h.fits) in
    let whole : c_string (take (length ssp) (ssp ++ rest)) ≡ ssp =
      ap c_string (take-append ssp rest) ∙ c_string_lem ssp h.no_nul in
    rw
      (
        h.is_dtn,
        append_assoc (head_wire 4 2) (head_wire 0 1 ++ string_wire 3 ssp) rest,
        append_assoc (head_wire 0 1) (string_wire 3 ssp) rest,
        read_array-wire 2 (head_wire 0 1 ++ (string_wire 3 ssp ++ rest)) (omega arith),
        read_uint-wire 1 (string_wire 3 ssp ++ rest) (omega arith),
        read_tstr-wire ssp rest (omega (arith, h.fits)),
        small,
        accepted,
        whole,
      )
      refl

-- ===== src/Cbor/Items.antt =====
-- Numbers, arrays and strings: what is encoded is decoded, with whatever follows it.
use ion_dtn_terrestrial.Prelude.{
  ℕ, ◌+◌, ◌-◌, ◌%◌, ◌^◌, ◌≤◌, ◌<◌, ◌==◌, ltb, not, [], ◌∷◌, ◌++◌, length, drop, length-append,
  drop-append, length-drop, append_assoc, some, >>=-eq-some, fail_if, ◌≡◌, ap, arith,
}
use ion_dtn_terrestrial.Prelude.Bits.{Bytes}
use ion_dtn_terrestrial.Buffer.{Encodes}
use ion_dtn_terrestrial.Cbor.{
  cbor_encode_uint, encode_string, cbor_encode_bstr, cbor_encode_tstr, cbor_encode_array,
  cbor_encode_indef_array_start, cbor_encode_break, DecodedHead, cbor_decode_head, decode_number,
  Slice, decode_string,
}
use ion_dtn_terrestrial.Cbor.Head.{head_wire, head-Encodes, decode-head_wire, head_wire_shape}

abbrev pub string_wire : ℕ → Bytes → Bytes
string_wire major bytes = head_wire major (length bytes) ++ bytes

string-Encodes :
    (major : ℕ) (bytes : Bytes)
    → major < 8
    → Encodes (encode_string major bytes) (string_wire major bytes)
unfolding encode_string
string-Encodes major bytes h = record {
  at = λ n size. ground (
    arith,
    (head-Encodes major (length bytes) h).at n size,
    length-append (head_wire major (length bytes)) bytes,
  );
}

pub uint-Encodes : (value : ℕ) → Encodes (cbor_encode_uint value) (head_wire 0 value)
unfolding cbor_encode_uint
uint-Encodes value = head-Encodes 0 value (omega arith)

pub array-Encodes : (count : ℕ) → Encodes (cbor_encode_array count) (head_wire 4 count)
unfolding cbor_encode_array
array-Encodes count = head-Encodes 4 count (omega arith)

pub bstr-Encodes : (bytes : Bytes) → Encodes (cbor_encode_bstr bytes) (string_wire 2 bytes)
unfolding cbor_encode_bstr
bstr-Encodes bytes = string-Encodes 2 bytes (omega arith)

pub tstr-Encodes : (str : Bytes) → Encodes (cbor_encode_tstr str) (string_wire 3 str)
unfolding cbor_encode_tstr
tstr-Encodes str = string-Encodes 3 str (omega arith)

pub indef-Encodes : Encodes cbor_encode_indef_array_start (0x9F ∷ [])
unfolding cbor_encode_indef_array_start
indef-Encodes = record { at = λ n size. ground arith }

pub break-Encodes : Encodes cbor_encode_break (0xFF ∷ [])
unfolding cbor_encode_break
break-Encodes = record { at = λ n size. ground arith }

pub decode_number-head_wire :
    (major arg : ℕ) (rest : Bytes)
    → arg < 2 ^ 64
    → decode_number major (head_wire major arg ++ rest) ≡ some (arg, length (head_wire major arg))
unfolding decode_number
decode_number-head_wire major arg rest h = ground (arith, decode-head_wire major arg rest h)

pub decode_string-string_wire :
    (major : ℕ) (bytes rest : Bytes)
    → length bytes < 2 ^ 63
    → decode_string major (string_wire major bytes ++ rest)
      ≡ some
          (record { bytes = bytes ++ rest; len = length bytes }, length (string_wire major bytes))
unfolding decode_string
decode_string-string_wire major bytes rest h =
    let head = head_wire major (length bytes) in
    ground (
      arith,
      append_assoc head bytes rest,
      decode_number-head_wire major (length bytes) (bytes ++ rest) (omega (arith, h)),
      head_wire_shape major (length bytes),
      length-append head (bytes ++ rest),
      length-append head bytes,
      length-append bytes rest,
      drop-append head (bytes ++ rest),
    )

head_count :
    (buf : Bytes) (h : DecodedHead) → cbor_decode_head buf ≡ some h → (0 < h.count) × (h.count ≤ 9)
unfolding cbor_decode_head
head_count [] h e = cc
head_count (first ∷ buf) h e = ground arith

decode_number_count :
    (major : ℕ) (buf : Bytes) (arg n : ℕ)
    → decode_number major buf ≡ some (arg, n)
    → (0 < n) × (n ≤ 9)
unfolding decode_number
decode_number_count major buf arg n e =
    let (head, decoded, e1) = >>=-eq-some (cbor_decode_head buf) _ e in
    let (u, right, e2) = >>=-eq-some (fail_if (not (head.major == major))) _ e1 in
    ground (arith, head_count buf head decoded, e2)

-- A string that is read lies within the buffer, unless its length is one of the nine greatest uint64s.
pub decode_string_inside :
    (major : ℕ) (buf : Bytes) (s : Slice) (n : ℕ)
    → decode_string major buf ≡ some (s, n)
    → s.len < 2 ^ 64 - 9
    → (n ≤ length buf) × (s.len ≤ length s.bytes)
unfolding decode_string
decode_string_inside major buf s n e h =
    let ((slen, m), number, e1) = >>=-eq-some (decode_number major buf) _ e in
    let (u, fits, e2) = >>=-eq-some (fail_if (ltb (length buf) ((m + slen) % 2 ^ 64))) _ e1 in
    let few = decode_number_count major buf slen m number in
    let len : slen ≡ s.len = cc in
    let count : (m + slen) % 2 ^ 64 ≡ n = cc in
    let bytes : drop m buf ≡ s.bytes = cc in
    let no_wrap : (m + slen) % 2 ^ 64 ≡ m + s.len = omega (arith, len, few, h) in
    let room : n ≤ length buf = ground (arith, fits, count) in
    (room, omega (arith, no_wrap, count, room, length-drop m buf, ap length bytes))

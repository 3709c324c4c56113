-- ===== src/Ax25/Frame.antt =====
-- The frames of ax25.c: what is built is accepted again.
use ion_dtn_terrestrial.Prelude.{
  ℕ, zero, suc, ◌+◌, ◌≤◌, ◌<◌, ◌==◌, leb, ltb, Bool, true, false, ◌||◌, [], ◌∷◌, ◌++◌, length, take,
  drop, map, some, ◌≡◌, ◌∙◌, refl, arith, fail_if, length-append, length-take, >>=-eq-some, sym, ap,
  subst,
}
use ion_dtn_terrestrial.Prelude.Bits.{Bytes, shr, low_bits}
use ion_dtn_terrestrial.Ax25.{
  ssid_field, hdr_len, max_info, call_bytes, split_dash, parse_ssid, ax25_encode_addr, trim_spaces,
  c_string, decimal, ssid_byte, ax25_decode_addr, ax25_build_frame, ax25_strip_frame,
}

pub length-call_bytes : (n : ℕ) (call : Bytes) → length (call_bytes n call) ≡ n
unfolding call_bytes
length-call_bytes zero call = refl
length-call_bytes (suc n) [] = omega (arith, length-call_bytes n [])
length-call_bytes (suc n) (c ∷ call) = omega (arith, length-call_bytes n call)

length-trim_spaces : (s : Bytes) → length (trim_spaces s) ≤ length s
unfolding trim_spaces
length-trim_spaces [] = omega arith
length-trim_spaces (c ∷ s) = ground (arith, length-trim_spaces s)

length-c_string : (s : Bytes) → length (c_string s) ≤ length s
unfolding c_string
length-c_string [] = omega arith
length-c_string (c ∷ s) = ground (arith, length-c_string s)

length-shifted : (s : Bytes) → length (map (λ b. shr b 1) s) ≡ length s
length-shifted [] = refl
length-shifted (c ∷ s) = omega (arith, length-shifted s)

-- Seven bytes, whatever the callsign.
length-encode_addr :
    (callsign : Bytes) (last : Bool) {addr : Bytes}
    → ax25_encode_addr callsign last ≡ some addr
    → length addr ≡ 7
unfolding ax25_encode_addr
length-encode_addr callsign last {addr} e =
    let call = (split_dash callsign).0 in
    let (u, sized, e1) = >>=-eq-some (fail_if (length call == 0 || ltb 6 (length call))) _ e in
    let (ssid, parsed, e2) = >>=-eq-some (parse_ssid (split_dash callsign).1) _ e1 in
    let built : call_bytes 6 call ++ (ssid_field ssid last ∷ []) ≡ addr = cc in
    rw (sym built) (
      omega (
        arith,
        length-append (call_bytes 6 call) (ssid_field ssid last ∷ []),
        length-call_bytes 6 call,
      ))

pub length-decimal : (n : ℕ) → length (decimal n) ≤ 2
length-decimal n = ground arith

leb_short : (n : ℕ) → n < 12 → leb 12 n ≡ false
leb_short n h = ground arith

-- The text of an address has at most nine characters, so that twelve bytes always hold it.
decode_addr_total : (addr : Bytes) → (text : Bytes) × (ax25_decode_addr addr 12 ≡ some text)
unfolding ax25_decode_addr
decode_addr_total addr =
    let shifted = map (λ b. shr b 1) (take 6 addr) in
    let call = c_string (trim_spaces shifted) in
    let digits = decimal (low_bits (shr (ssid_byte (drop 6 addr)) 1) 4) in
    let short : length (call ++ (b'-' ∷ digits)) < 12 = omega (
      arith,
      length-append call (b'-' ∷ digits),
      length-c_string (trim_spaces shifted),
      length-trim_spaces shifted,
      length-shifted (take 6 addr),
      length-take 6 addr,
      length-decimal (low_bits (shr (ssid_byte (drop 6 addr)) 1) 4),
    ) in
    (
      call ++ (b'-' ∷ digits),
      rw (leb_short (length (call ++ (b'-' ∷ digits))) short, ax25_decode_addr) refl,
    )

pub drop_past : (a rest : Bytes) (m k : ℕ) → m ≡ length a + k → drop m (a ++ rest) ≡ drop k rest
drop_past [] rest m k h = ap (λ n. drop n rest) (omega (arith, h))
drop_past (x ∷ a) rest zero k h = absurd (omega arith)
drop_past (x ∷ a) rest (suc m) k h = drop_past a rest m k (omega arith)

abbrev pub frame_of : Bytes → Bytes → Bytes → Bytes
frame_of dst src info = dst ++ (src ++ (0x03 ∷ 0xF0 ∷ info))

drop-frame_of :
    (dst src info : Bytes) (m k : ℕ)
    → length dst ≡ 7
    → length src ≡ 7
    → m ≡ 14 + k
    → drop m (frame_of dst src info) ≡ drop k (0x03 ∷ 0xF0 ∷ info)
drop-frame_of dst src info m k seven more h =
    drop_past dst (src ++ (0x03 ∷ 0xF0 ∷ info)) m (7 + k) (omega arith)
    ∙ drop_past src (0x03 ∷ 0xF0 ∷ info) (7 + k) k (omega arith)

ltb_long : (n : ℕ) → 16 ≤ n → ltb n 16 ≡ false
ltb_long n h = ground arith

pub strip-frame_of :
    (dst src info : Bytes) {d s : Bytes}
    → length dst ≡ 7
    → length src ≡ 7
    → ax25_decode_addr (frame_of dst src info) 12 ≡ some d
    → ax25_decode_addr (src ++ (0x03 ∷ 0xF0 ∷ info)) 12 ≡ some s
    → ax25_strip_frame (frame_of dst src info) ≡ some (s, d, info)
unfolding ax25_strip_frame
strip-frame_of dst src info seven more dst_read src_read =
    let frame = frame_of dst src info in
    let sized : length frame ≡ 16 + length info = omega (
      arith,
      length-append dst (src ++ (0x03 ∷ 0xF0 ∷ info)),
      length-append src (0x03 ∷ 0xF0 ∷ info),
    ) in
    let long : ltb (length frame) 16 ≡ false = ltb_long (length frame) (omega (arith, sized)) in
    rw
      (
        long,
        drop-frame_of dst src info 14 0 seven more refl,
        drop-frame_of dst src info 15 1 seven more refl,
        dst_read,
        drop_past dst (src ++ (0x03 ∷ 0xF0 ∷ info)) 7 0 (omega arith),
        src_read,
        drop-frame_of dst src info 16 2 seven more refl,
      )
      refl

-- A frame that was built, for any callsigns that are accepted, is accepted when it is read, and gives
-- its information field back.
pub strip-build_frame :
    (dst_call src_call info : Bytes) (out_size : ℕ) {frame : Bytes}
    → ax25_build_frame dst_call src_call info out_size ≡ some frame
    → (s : Bytes) × (d : Bytes) × (ax25_strip_frame frame ≡ some (s, d, info))
unfolding ax25_build_frame
strip-build_frame dst_call src_call info out_size {frame} e =
    let (u, short, e1) = >>=-eq-some (fail_if (ltb max_info (length info))) _ e in
    let (v, fits, e2) = >>=-eq-some (fail_if (ltb out_size (hdr_len + length info))) _ e1 in
    let (dst, dst_made, e3) = >>=-eq-some (ax25_encode_addr dst_call false) _ e2 in
    let (src, src_made, e4) = >>=-eq-some (ax25_encode_addr src_call true) _ e3 in
    let built : frame_of dst src info ≡ frame = cc in
    let (d, dst_read) = decode_addr_total (frame_of dst src info) in
    let (s, src_read) = decode_addr_total (src ++ (0x03 ∷ 0xF0 ∷ info)) in
    let read =
      strip-frame_of dst src info (length-encode_addr dst_call false dst_made)
        (length-encode_addr src_call true src_made) dst_read src_read in
    (s, d, subst (λ f. ax25_strip_frame f ≡ some (s, d, info)) built read)

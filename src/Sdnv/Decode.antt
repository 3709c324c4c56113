-- ===== src/Sdnv/Decode.antt =====
-- `sdnv_decode` on what `sdnv_encode` writes, and on any input.
use ion_dtn_terrestrial.Prelude.{
  ℕ, zero, suc, ◌+◌, ◌*◌, ◌/◌, ◌%◌, ◌^◌, ◌≤◌, ◌<◌, ltb, if◌then◌else◌, [], ◌∷◌, ◌++◌, length,
  length-append, append_assoc, drop-append, le→ltb, bit_or, none, some, ◌≡◌, arith,
}
use ion_dtn_terrestrial.Prelude.Bits.{Bytes, bit_or-shift, low_bits}
use ion_dtn_terrestrial.Sdnv.{
  IsU64, int64_max, sdnv_encode, sdnv_decode_loop, sdnv_decode, read_sdnv,
}
use ion_dtn_terrestrial.Sdnv.Encode.{groups, encoding, sdnv_encode-encoding, shrink}

-- One round, on a byte with the continuation bit over the group `g`, and on a last byte.
inner_byte :
    (g i result : ℕ) (buf : Bytes)
    → g < 128
    → result * 128 + g ≤ int64_max
    → sdnv_decode_loop ((g + 128) ∷ buf) i result ≡ sdnv_decode_loop buf (i + 1) (result * 128 + g)
unfolding sdnv_decode_loop
inner_byte g i result buf hg fits = ground (arith, bit_or-shift 7 result g)

last_byte :
    (g i result : ℕ) (buf : Bytes)
    → g < 128
    → result < 2 ^ 57
    → sdnv_decode_loop (g ∷ buf) i result
      ≡ (if ltb int64_max (result * 128 + g) then none else some (result * 128 + g, i + 1))
unfolding sdnv_decode_loop
last_byte g i result buf hg fits = ground (arith, bit_or-shift 7 result g)

decode-groups :
    (room v i : ℕ) (buf : Bytes)
    → v < 128 ^ room
    → v ≤ int64_max
    → sdnv_decode_loop (groups room v ++ buf) i 0
      ≡ sdnv_decode_loop buf (i + length (groups room v)) v
unfolding groups
decode-groups zero v i buf h fits = ground arith
decode-groups (suc room) v i buf h fits = ground (
  arith,
  append_assoc (groups room (v / 128)) ((v % 128 + 128) ∷ []) buf,
  length-append (groups room (v / 128)) ((v % 128 + 128) ∷ []),
  decode-groups room (v / 128) i ((v % 128 + 128) ∷ buf) (shrink room v h) (omega arith),
  inner_byte (v % 128) (i + length (groups room (v / 128))) (v / 128) buf,
)

decode-encoding :
    (v : ℕ) (buf : Bytes)
    → IsU64 v
    → sdnv_decode (encoding v ++ buf)
      ≡ (if ltb int64_max v then none else some (v, length (encoding v)))
unfolding sdnv_decode encoding
decode-encoding v buf h = ground (
  arith,
  append_assoc (groups 9 (v / 128)) (v % 128 ∷ []) buf,
  length-append (groups 9 (v / 128)) (v % 128 ∷ []),
  decode-groups 9 (v / 128) 0 ((v % 128) ∷ buf) (omega arith) (omega arith),
  last_byte (v % 128) (length (groups 9 (v / 128))) (v / 128) buf,
)

-- A uint64 that `sdnv_encode` wrote is read back, with the number of its bytes, whatever follows,
-- if it is at most INT64_MAX; a greater one is written and then refused by the decoder.
pub sdnv_decode-encode :
    (v out_size : ℕ) (buf : Bytes) {bytes : Bytes}
    → IsU64 v
    → sdnv_encode v out_size ≡ some bytes
    → sdnv_decode (bytes ++ buf) ≡ (if ltb int64_max v then none else some (v, length bytes))
sdnv_decode-encode v out_size buf h e =
    ground (arith, sdnv_encode-encoding v out_size h, decode-encoding v buf h)

-- Reading moves on to what follows the number.
pub read_sdnv-encoding :
    (v : ℕ) (buf : Bytes) → v ≤ int64_max → read_sdnv (encoding v ++ buf) ≡ some (v, buf)
unfolding read_sdnv
read_sdnv-encoding v buf h =
    rw (decode-encoding v buf (omega arith), le→ltb int64_max v h)
      (rw (drop-append (encoding v) buf))

abbrev next_result : ℕ → ℕ → ℕ
next_result result b = bit_or (result * 2 ^ 7 % 2 ^ 64) (low_bits b 7)

loop_bounds :
    (buf : Bytes) (i result v n : ℕ)
    → sdnv_decode_loop buf i result ≡ some (v, n)
    → (v ≤ int64_max) × (i < n) × (n ≤ i + length buf)
unfolding sdnv_decode_loop
loop_bounds [] i result v n e = cc
loop_bounds (b ∷ buf) i result v n e =
    ground (arith, loop_bounds buf (i + 1) (next_result result b) v n)

-- A number that is read is at most INT64_MAX, and takes at least one byte and no more than there
-- are.
sdnv_decode_bounds :
    (buf : Bytes) {v n : ℕ}
    → sdnv_decode buf ≡ some (v, n)
    → (v ≤ int64_max) × (0 < n) × (n ≤ length buf)
unfolding sdnv_decode
sdnv_decode_bounds buf {v} {n} e = omega (arith, loop_bounds buf 0 0 v n e)

loop-append :
    (buf more : Bytes) (i result v n : ℕ)
    → sdnv_decode_loop buf i result ≡ some (v, n)
    → sdnv_decode_loop (buf ++ more) i result ≡ some (v, n)
unfolding sdnv_decode_loop
loop-append [] more i result v n e = cc
loop-append (b ∷ buf) more i result v n e =
    ground (arith, loop-append buf more (i + 1) (next_result result b) v n)

-- A number is read alike whatever bytes are added behind the buffer.
sdnv_decode-append :
    (buf more : Bytes) {v n : ℕ}
    → sdnv_decode buf ≡ some (v, n)
    → sdnv_decode (buf ++ more) ≡ some (v, n)
unfolding sdnv_decode
sdnv_decode-append buf more {v} {n} e = loop-append buf more 0 0 v n e

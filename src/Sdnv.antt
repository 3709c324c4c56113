-- ===== src/Sdnv.antt =====
-- kiss-interface/sdnv.c: self-delimiting numeric values, seven bits a byte, highest group first.
-- A `uint64_t` is a number, and every shift that can lose bits is written with its `% 2 ^ 64`.
pub mod Encode
pub mod Decode
mod Runs
use ion_dtn_terrestrial.Prelude.{
  ℕ, zero, suc, ◌+◌, ◌-◌, ◌*◌, ◌/◌, ◌%◌, ◌^◌, ◌<◌, ◌==◌, ltb, if◌then◌else◌, [], ◌∷◌, length, drop,
  Option, none, some, ◌>>=◌, ◌>>◌, fail_if, bit_or,
}
use ion_dtn_terrestrial.Prelude.Bits.{Bytes, low_bits, shr, test_bit}

abbrev pub IsU64 : ℕ → Type 0
IsU64 v = v < 2 ^ 64

abbrev pub uint64_max : ℕ
uint64_max = 0xffff_ffff_ffff_ffff

abbrev pub int64_max : ℕ
int64_max = 0x7fff_ffff_ffff_ffff

-- The `while` loop. `room` is SDNV_MAX_BYTES - nbytes, and `tmp` stands last entry first, which
-- is the order in which the end of the function writes it to `out`.
sdnv_encode_loop : ℕ → ℕ → Bytes → Option Bytes
sdnv_encode_loop zero value tmp = if value == 0 then some tmp else none
sdnv_encode_loop (suc room) value tmp =
    let rest = sdnv_encode_loop room (shr value 7) (bit_or (low_bits value 7) 0x80 ∷ tmp) in
    if value == 0 then some tmp else rest

unfoldable pub sdnv_encode : ℕ → ℕ → Option Bytes
unfolding sdnv_encode_loop
sdnv_encode value out_size = do
  fail_if (out_size == 0)
  tmp ← sdnv_encode_loop 9 (shr value 7) (low_bits value 7 ∷ [])
  fail_if (ltb out_size (length tmp))
  some tmp

-- The `for` loop at index i; the list is what follows `buf + i`.
sdnv_decode_loop : Bytes → ℕ → ℕ → Option (ℕ × ℕ)
sdnv_decode_loop [] i result = none
sdnv_decode_loop (b ∷ buf) i result =
    let result' = bit_or (result * 2 ^ 7 % 2 ^ 64) (low_bits b 7) in
    let rest = sdnv_decode_loop buf (i + 1) result' in
    if ltb (shr uint64_max 7) result
    then none
    else if ltb int64_max result'
    then none
    else if test_bit b 7 == 0
    then some (result', i + 1)
    else rest

-- The value, and the number of bytes read. An empty buffer is refused by the loop.
unfoldable pub sdnv_decode : Bytes → Option (ℕ × ℕ)
unfolding sdnv_decode_loop
sdnv_decode buf = sdnv_decode_loop buf 0 0

-- `n = sdnv_decode(buf + pos, len - pos, &value); if (n < 0) return -1; pos += n;` on the bytes
-- from `pos` on: the value, and the bytes from the new `pos` on.
unfoldable pub read_sdnv : Bytes → Option (ℕ × Bytes)
unfolding sdnv_decode
read_sdnv buf = do (value, n) ← sdnv_decode buf; some (value, drop n buf)

-- ===== src/Ping.antt =====
-- kiss-interface/ping.c: the payload of a ping. A timestamp, an int64, is the uint64 that it is
-- cast to.
pub mod RoundTrip
mod Runs
use ion_dtn_terrestrial.Prelude.{
  ℕ, zero, suc, ◌+◌, ◌*◌, ◌/◌, ◌%◌, ◌^◌, Bool, ltb, not, [], ◌∷◌, ◌++◌, length, take, drop,
  starts_with, Option, none, some, ◌>>◌, fail_if, bit_or,
}
use ion_dtn_terrestrial.Prelude.Bits.{Bytes, low_bits, shr}

abbrev pub ping_payload_len : ℕ
ping_payload_len = 14

abbrev pub ping_magic : Bytes
ping_magic = b'P' ∷ b'I' ∷ b'N' ∷ b'G' ∷ []

-- The loop from the last byte to the first, with n bytes to go; `written` are those behind them.
unfoldable pub put_loop : ℕ → ℕ → Bytes → Bytes
put_loop zero u written = written
put_loop (suc n) u written = put_loop n (shr u 8) (low_bits u 8 ∷ written)

unfoldable pub put_be64 : ℕ → Bytes
unfolding put_loop
put_be64 val = put_loop 8 val []

unfoldable pub get_loop : ℕ → Bytes → ℕ
get_loop u [] = u
get_loop u (b ∷ bytes) = get_loop (bit_or (u * 2 ^ 8 % 2 ^ 64) b) bytes

unfoldable pub get_be64 : Bytes → ℕ
unfolding get_loop
get_be64 bytes = get_loop 0 (take 8 bytes)

-- The fourteen bytes that stand at the front of `out`.
unfoldable pub ping_build_payload : ℕ → ℕ → ℕ → Option Bytes
unfolding put_be64
ping_build_payload seq tx_us out_size = do
  fail_if (ltb out_size ping_payload_len)
  some (ping_magic ++ (low_bits (shr seq 8) 8 ∷ low_bits seq 8 ∷ put_be64 tx_us))

-- `ntohs` of the two bytes.
abbrev pub net_short : Bytes → ℕ
net_short (high ∷ low ∷ bytes) = high * 2 ^ 8 + low
net_short _ = 0

unfoldable pub ping_parse_payload : Bytes → Option (ℕ × ℕ)
unfolding get_be64
ping_parse_payload bytes = do
  fail_if (ltb (length bytes) ping_payload_len)
  fail_if (not (starts_with ping_magic bytes))
  some (net_short (drop 4 bytes), get_be64 (drop 6 bytes))

-- The clock shows `tv_sec` and `tv_nsec`.
unfoldable pub ping_now_us : ℕ → ℕ → ℕ
ping_now_us tv_sec tv_nsec = tv_sec * 1000000 + tv_nsec / 1000

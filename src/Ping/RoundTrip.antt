-- ===== src/Ping/RoundTrip.antt =====
-- The payload of kiss-interface/ping.c: what is built is parsed.
use ion_dtn_terrestrial.Prelude.{
  ℕ, zero, suc, ◌+◌, ◌*◌, ◌%◌, ◌^◌, ◌<◌, false, ltb, [], ◌∷◌, ◌++◌, length, some, >>=-eq-some,
  fail_if, bit_or, ◌≡◌, ◌∙◌, refl, sym, ap, arith,
}
use ion_dtn_terrestrial.Prelude.Bits.{Bytes, low_bits, shr, bit_or-shift}
use ion_dtn_terrestrial.Ping.{
  ping_payload_len, ping_magic, put_loop, put_be64, get_loop, get_be64, ping_build_payload,
  ping_parse_payload,
}

-- What is left of a number after n bytes.
unfoldable shifted : ℕ → ℕ → ℕ
shifted zero u = u
shifted (suc n) u = shifted n (shr u 8)

next_byte : (u : ℕ) → u < 2 ^ 64 → bit_or (shr u 8 * 2 ^ 8 % 2 ^ 64) (low_bits u 8) ≡ u
next_byte u h =
    let whole : shr u 8 * 2 ^ 8 % 2 ^ 64 ≡ shr u 8 * 2 ^ 8 = omega arith in
    rw whole (bit_or-shift 8 (shr u 8) (low_bits u 8) (omega arith) ∙ omega arith)

get-put_loop :
    (n u : ℕ) (written : Bytes)
    → u < 2 ^ 64
    → get_loop (shifted n u) (put_loop n u written) ≡ get_loop u written
unfolding put_loop get_loop shifted
get-put_loop zero u written h = refl
get-put_loop (suc n) u written h =
    get-put_loop n (shr u 8) (low_bits u 8 ∷ written) (omega arith)
    ∙ ap (λ v. get_loop v written) (next_byte u h)

get-put_be64 : (u : ℕ) (rest : Bytes) → u < 2 ^ 64 → get_be64 (put_be64 u ++ rest) ≡ u
unfolding get_be64 put_be64 shifted put_loop
get-put_be64 u rest h =
    let none_left : shifted 8 u ≡ 0 = omega arith in
    ap (λ acc. get_loop acc (put_loop 8 u [])) (sym none_left) ∙ get-put_loop 8 u [] h

abbrev ping_wire : ℕ → ℕ → Bytes
ping_wire seq tx_us = ping_magic ++ (low_bits (shr seq 8) 8 ∷ low_bits seq 8 ∷ put_be64 tx_us)

parse-ping_wire :
    (seq tx_us : ℕ) (rest : Bytes)
    → seq < 2 ^ 16
    → tx_us < 2 ^ 64
    → ping_parse_payload (ping_wire seq tx_us ++ rest) ≡ some (seq, tx_us)
unfolding ping_parse_payload put_be64 put_loop
parse-ping_wire seq tx_us rest small time =
    let long : ltb (length (ping_wire seq tx_us ++ rest)) 14 ≡ false = ground arith in
    let number : low_bits (shr seq 8) 8 * 2 ^ 8 + low_bits seq 8 ≡ seq = omega arith in
    rw (long, number, get-put_be64 tx_us rest time) refl

-- A payload that was built is parsed to its sequence number and timestamp, whatever follows it.
pub ping_parse-build :
    (seq tx_us size : ℕ) {bytes : Bytes} (rest : Bytes)
    → seq < 2 ^ 16
    → tx_us < 2 ^ 64
    → ping_build_payload seq tx_us size ≡ some bytes
    → ping_parse_payload (bytes ++ rest) ≡ some (seq, tx_us)
unfolding ping_build_payload
ping_parse-build seq tx_us size {bytes} rest small time e =
    let (u, fits, e1) = >>=-eq-some (fail_if (ltb size ping_payload_len)) _ e in
    let same : ping_wire seq tx_us ≡ bytes = cc in
    ap (λ wire. ping_parse_payload (wire ++ rest)) (sym same)
    ∙ parse-ping_wire seq tx_us rest small time

-- Fourteen bytes hold a payload, and take it up.
pub ping_build_total :
    (seq tx_us : ℕ)
    → (payload : Bytes) × (ping_build_payload seq tx_us ping_payload_len ≡ some payload)
      × (length payload ≡ ping_payload_len)
unfolding ping_build_payload put_be64 put_loop
ping_build_total seq tx_us = (_, refl, refl)

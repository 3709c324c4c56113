-- ===== src/Nrzi/Line.antt =====
-- The NRZI code of the line.
use ion_dtn_terrestrial.Prelude.{
  ℕ, zero, suc, false, ◌≤◌, ◌<◌, ◌==◌, [], ◌∷◌, length, ◌≡◌, refl, ap, arith, All,
}
use ion_dtn_terrestrial.Nrzi.{
  Bitstream, toggle, encode_loop, start_state, nrzi_encode, decode_loop, nrzi_decode,
}

abbrev pub IsBit : ℕ → Type 0
IsBit b = b < 2

toggle_other : (s : ℕ) → IsBit s → ((toggle s == s) ≡ false) × IsBit (toggle s)
toggle_other zero h = (refl, omega arith)
toggle_other (suc zero) h = (refl, omega arith)
toggle_other (suc (suc s)) h = absurd (omega arith)

pub decode_loop-encode_loop :
    (bits : Bitstream) (state : ℕ)
    → IsBit state
    → All IsBit bits
    → decode_loop (encode_loop bits state) state ≡ bits
unfolding decode_loop encode_loop
decode_loop-encode_loop [] state h k = refl
decode_loop-encode_loop (zero ∷ bits) state h (b, k) = ground (
  arith,
  toggle_other state h,
  decode_loop-encode_loop bits (toggle state) (toggle_other state h).1 k,
)
decode_loop-encode_loop (suc zero ∷ bits) state h (b, k) =
    ground (arith, decode_loop-encode_loop bits state h k)
decode_loop-encode_loop (suc (suc n) ∷ bits) state h (b, k) = absurd (omega arith)

length-encode_loop : (bits : Bitstream) (state : ℕ) → length (encode_loop bits state) ≡ length bits
unfolding encode_loop
length-encode_loop [] state = refl
length-encode_loop (b ∷ bits) state = ap suc (length-encode_loop bits _)

-- From the same initial state, and with buffers that are large enough, a stream of bits is decoded
-- from its NRZI code.
nrzi_decode-encode :
    (bits : Bitstream) (n m initial_state : ℕ)
    → All IsBit bits
    → length bits ≤ n
    → length bits ≤ m
    → nrzi_decode (nrzi_encode bits n initial_state) m initial_state ≡ bits
unfolding nrzi_decode nrzi_encode
nrzi_decode-encode bits n m initial_state h k l =
    let start : IsBit (start_state initial_state) = ground arith in
    ground (
      arith,
      length-encode_loop bits (start_state initial_state),
      decode_loop-encode_loop bits (start_state initial_state) start h,
    )

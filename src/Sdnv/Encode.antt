-- ===== src/Sdnv/Encode.antt =====
-- What `sdnv_encode` writes, in plain arithmetic.
use ion_dtn_terrestrial.Prelude.{
  ℕ, zero, suc, ◌+◌, ◌*◌, ◌/◌, ◌%◌, ◌^◌, ◌≤◌, ◌<◌, ◌==◌, ltb, if◌then◌else◌, Bool-cases, [], ◌∷◌,
  ◌++◌, length, length-append, append_assoc, All, All-append, none, some, ◌≡◌, ◌∙◌, arith, inl, inr,
}
use ion_dtn_terrestrial.Prelude.Bits.{Bytes, IsByte, or_top_bit}
use native.Mathlib.Nat.{pow-suc}
use ion_dtn_terrestrial.Sdnv.{IsU64, sdnv_encode_loop, sdnv_encode}

-- The groups of seven bits of `v`, highest first, each with the continuation bit.
unfoldable pub groups : ℕ → ℕ → Bytes
groups zero v = []
groups (suc room) v =
    let front = groups room (v / 128) in if v == 0 then [] else front ++ ((v % 128 + 128) ∷ [])

unfoldable pub encoding : ℕ → Bytes
unfolding groups
encoding v = groups 9 (v / 128) ++ (v % 128 ∷ [])

pub shrink : (room v : ℕ) → v < 128 ^ suc room → v / 128 < 128 ^ room
shrink room v h = let e : 128 ^ suc room ≡ 128 ^ room * 128 = pow-suc 128 room in omega arith

loop-groups :
    (room v : ℕ) (tmp : Bytes)
    → v < 128 ^ room
    → sdnv_encode_loop room v tmp ≡ some (groups room v ++ tmp)
unfolding sdnv_encode_loop groups
loop-groups zero v tmp h = ground arith
loop-groups (suc room) v tmp h = elim (Bool-cases (v == 0)) [
  | inl end ↦ rw end
  | inr more ↦
      rw (more, or_top_bit (v % 128) (omega arith))
        (loop-groups room (v / 128) ((v % 128 + 128) ∷ tmp) (shrink room v h) ∙ rw append_assoc)
]

-- Every uint64 is written, with its encoding, exactly when that fits.
pub sdnv_encode-encoding :
    (v out_size : ℕ)
    → IsU64 v
    → sdnv_encode v out_size
      ≡ (if ltb out_size (length (encoding v)) then none else some (encoding v))
unfolding sdnv_encode encoding
sdnv_encode-encoding v out_size h =
    ground (arith, loop-groups 9 (v / 128) (v % 128 ∷ []) (omega arith))

length-groups : (room v : ℕ) → length (groups room v) ≤ room
unfolding groups
length-groups zero v = omega arith
length-groups (suc room) v = ground (
  arith,
  length-append (groups room (v / 128)) ((v % 128 + 128) ∷ []),
  length-groups room (v / 128),
)

groups-IsByte : (room v : ℕ) → All IsByte (groups room v)
unfolding groups
groups-IsByte zero v = tt
groups-IsByte (suc room) v = ground (
  arith,
  groups-IsByte room (v / 128),
  All-append IsByte (groups room (v / 128)) ((v % 128 + 128) ∷ []) (groups-IsByte room (v / 128))
      (omega arith),
)

pub encoding_shape :
    (v : ℕ) → (1 ≤ length (encoding v)) × (length (encoding v) ≤ 10) × All IsByte (encoding v)
unfolding encoding
encoding_shape v =
    let split = length-append (groups 9 (v / 128)) (v % 128 ∷ []) in
    let short = length-groups 9 (v / 128) in
    (
      omega arith,
      omega arith,
      All-append IsByte (groups 9 (v / 128)) (v % 128 ∷ []) (groups-IsByte 9 (v / 128))
          (omega arith),
    )

-- With SDNV_MAX_BYTES of room every uint64 is written, as 1 to 10 bytes, those above 2^63 - 1 too,
-- for which the specification wants an error: the code's "value too large" is never reported.
pub sdnv_encode_total :
    (v out_size : ℕ)
    → IsU64 v
    → 10 ≤ out_size
    → (bytes : Bytes) × (sdnv_encode v out_size ≡ some bytes)
      × (1 ≤ length bytes)
      × (length bytes ≤ 10)
      × All IsByte bytes
sdnv_encode_total v out_size h room =
    let (lo, hi, are_bytes) = encoding_shape v in
    (encoding v, ground (arith, sdnv_encode-encoding v out_size h), lo, hi, are_bytes)

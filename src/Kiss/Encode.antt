-- ===== src/Kiss/Encode.antt =====
-- `kiss_encode` against the KISS frame of a payload.
use ion_dtn_terrestrial.Prelude.{
  ℕ, ◌+◌, ◌*◌, ◌≤◌, ◌==◌, ltb, if◌then◌else◌, [], ◌∷◌, ◌++◌, length, length-append, none, some, ◌≡◌,
  ◌≢◌, ◌∙◌, refl, le→ltb, arith, All,
}
use ion_dtn_terrestrial.Prelude.Bits.{Bytes}
use ion_dtn_terrestrial.Kiss.{fend, fesc, tfend, tfesc, kiss_encode_loop, kiss_encode}

-- How KISS writes one byte, a payload, and a data frame on port 0.
unfoldable pub escaped : ℕ → Bytes
escaped b = if b == fend then fesc ∷ tfend ∷ [] else if b == fesc then fesc ∷ tfesc ∷ [] else b ∷ []

unfoldable pub stuffed : Bytes → Bytes
unfolding escaped
stuffed [] = []
stuffed (b ∷ payload) = escaped b ++ stuffed payload

unfoldable pub data_frame : Bytes → Bytes
unfolding stuffed
data_frame payload = fend ∷ 0x00 ∷ (stuffed payload ++ (fend ∷ []))

loop-stuffed :
    (payload : Bytes) (pos out_size : ℕ)
    → pos ≤ out_size
    → kiss_encode_loop payload pos out_size
      ≡ (if ltb out_size (pos + length (stuffed payload)) then none else some (stuffed payload))
unfolding kiss_encode_loop stuffed escaped
loop-stuffed [] pos out_size h = ground arith
loop-stuffed (b ∷ payload) pos out_size h =
    ground (arith, loop-stuffed payload (pos + 2) out_size, loop-stuffed payload (pos + 1) out_size)

-- The encoder writes the data frame of the payload exactly when it fits into `out_size` bytes,
-- and fails otherwise.
kiss_encode-data_frame :
    (payload : Bytes) (out_size : ℕ)
    → kiss_encode payload out_size
      ≡ (if ltb out_size (length (data_frame payload)) then none else some (data_frame payload))
unfolding kiss_encode data_frame
kiss_encode-data_frame payload out_size =
    ground (arith, loop-stuffed payload 2 out_size, length-append (stuffed payload) (fend ∷ []))

stuffed_bounds :
    (payload : Bytes)
    → (length payload ≤ length (stuffed payload)) × (length (stuffed payload) ≤ 2 * length payload)
unfolding stuffed escaped
stuffed_bounds [] = omega arith
stuffed_bounds (b ∷ payload) = ground (arith, stuffed_bounds payload)

abbrev pub IsNotFend : ℕ → Type 0
IsNotFend b = b ≢ fend

stuffed-IsNotFend : (payload : Bytes) → All IsNotFend (stuffed payload)
unfolding stuffed escaped
stuffed-IsNotFend [] = tt
stuffed-IsNotFend (b ∷ payload) = ground (arith, stuffed-IsNotFend payload)

data_frame_shape :
    (payload : Bytes)
    → (length payload + 3 ≤ length (data_frame payload))
      × (length (data_frame payload) ≤ 2 * length payload + 3)
      × ((body : Bytes) × (data_frame payload ≡ fend ∷ (body ++ (fend ∷ []))) × All IsNotFend body)
unfolding data_frame
data_frame_shape payload = (
  omega (arith, length-append (stuffed payload) (fend ∷ []), stuffed_bounds payload),
  omega (arith, length-append (stuffed payload) (fend ∷ []), stuffed_bounds payload),
  (0x00 ∷ stuffed payload, ground arith, (omega arith, stuffed-IsNotFend payload)),
)

pub kiss_encode-eq-some :
    (payload : Bytes) (size : ℕ) {bytes : Bytes}
    → kiss_encode payload size ≡ some bytes
    → (bytes ≡ data_frame payload) × (length bytes ≤ size)
kiss_encode-eq-some payload size e = ground (arith, kiss_encode-data_frame payload size)

-- A payload of n bytes takes a frame of n + 3 to 2n + 3 bytes, which is within `out_size`, begins
-- and ends with FEND, and has no FEND in between.
pub kiss_encode_shape :
    (payload : Bytes) (out_size : ℕ) {bytes : Bytes}
    → kiss_encode payload out_size ≡ some bytes
    → (length bytes ≤ out_size)
      × (length payload + 3 ≤ length bytes)
      × (length bytes ≤ 2 * length payload + 3)
      × ((body : Bytes) × (bytes ≡ fend ∷ (body ++ (fend ∷ []))) × All IsNotFend body)
kiss_encode_shape payload out_size e =
    let (same, fits) = kiss_encode-eq-some payload out_size e in
    let (lo, hi, body) = data_frame_shape payload in (fits, rw same lo, rw same hi, rw same body)

-- A buffer of 3 + 2n bytes holds the frame of every payload of n bytes.
pub kiss_encode_total :
    (payload : Bytes) (out_size : ℕ)
    → 2 * length payload + 3 ≤ out_size
    → kiss_encode payload out_size ≡ some (data_frame payload)
kiss_encode_total payload out_size room =
    let (lo, hi, body) = data_frame_shape payload in
    kiss_encode-data_frame payload out_size
    ∙ rw (le→ltb out_size (length (data_frame payload)) (omega arith)) refl

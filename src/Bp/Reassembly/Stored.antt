-- ===== src/Bp/Reassembly/Stored.antt =====
-- The array of a reassembly context of kiss-interface/bp.c: what is copied, and what is written out.
use ion_dtn_terrestrial.Prelude.{
  ℕ, zero, suc, ◌+◌, ◌≤◌, ◌<◌, true, false, ◌==◌, ltb, leb, ◌&&◌, Bool-cases, inl, inr, [], ◌∷◌,
  length, take, drop, get_elem?, some, ◌≡◌, ◌∙◌, refl, sym, arith,
}
use ion_dtn_terrestrial.Prelude.Bits.{Bytes}
use ion_dtn_terrestrial.Bp.Reassembly.{set, copy, stored_bytes}

drop-get :
    (xs : Bytes) (i : ℕ)
    → i < length xs
    → (x : ℕ) × (get_elem? xs i ≡ some x) × (drop i xs ≡ x ∷ drop (suc i) xs)
drop-get [] i h = ground arith
drop-get (x ∷ xs) zero h = (x, refl, refl)
drop-get (x ∷ xs) (suc i) h = drop-get xs i (omega arith)

drop-whole : (xs : Bytes) (i : ℕ) → length xs ≤ i → drop i xs ≡ []
drop-whole [] zero h = refl
drop-whole [] (suc i) h = refl
drop-whole (x ∷ xs) zero h = ground arith
drop-whole (x ∷ xs) (suc i) h = drop-whole xs i (omega arith)

-- What is stored where all bytes agree with `adu` is `adu`.
pub stored_bytes-drop :
    (array : ℕ → ℕ) (adu : Bytes) (i n : ℕ)
    → i + n ≡ length adu
    → ((j : ℕ) → j < length adu → get_elem? adu j ≡ some (array j))
    → stored_bytes array i n ≡ drop i adu
unfolding stored_bytes
stored_bytes-drop array adu i zero h k = sym (drop-whole adu i (omega arith))
stored_bytes-drop array adu i (suc n) h k =
    let (x, here, split) = drop-get adu i (omega arith) in
    let value : x ≡ array i = ground (arith, k i, here) in
    rw (split, value, stored_bytes-drop array adu (suc i) n (omega arith) k) refl

pub copy-outside :
    (array : ℕ → ℕ) (off : ℕ) (bytes : Bytes) (j : ℕ)
    → (leb off j && ltb j (off + length bytes)) ≡ false
    → copy array off bytes j ≡ array j
unfolding copy
copy-outside array off [] j h = refl
copy-outside array off (b ∷ bytes) j h =
    copy-outside (set array off b) (suc off) bytes j (ground arith) ∙ ground arith

pub copy-inside :
    (array : ℕ → ℕ) (adu : Bytes) (off n j : ℕ)
    → off + n ≤ length adu
    → (leb off j && ltb j (off + n)) ≡ true
    → get_elem? adu j ≡ some (copy array off (take n (drop off adu)) j)
unfolding copy
copy-inside array adu off zero j room h = ground arith
copy-inside array adu off (suc n) j room h =
    let (x, here, split) = drop-get adu off (omega arith) in
    rw split (elim (Bool-cases (j == off)) [
      | inl same ↦
          let at : j ≡ off = ground arith in
          let rest = take n (drop (suc off) adu) in
          let kept : copy (set array off x) (suc off) rest j ≡ set array off x j =
            copy-outside (set array off x) (suc off) rest j (ground arith) in
          ground (arith, at, here, kept)
      | inr other ↦ copy-inside (set array off x) adu (suc off) n j (omega arith) (ground arith)
    ])

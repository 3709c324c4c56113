-- ===== src/Buffer.antt =====
-- Output buffers as the encoders of ltp.c and bp.c use them: what has been written so far stands
-- at the front of `out`, `pos` is its length, and the next encoder is given `out + pos` and
-- `out_size - pos`. An encoder alone gives its bytes for a given room, or `none` for -1.
use ion_dtn_terrestrial.Prelude.{
  ℕ, ◌+◌, ◌-◌, ◌^◌, ◌≤◌, ◌<◌, ltb, if◌then◌else◌, [], ◌++◌, length, length-append, append-nil,
  append_assoc, Option, none, some, ◌>>=◌, ◌≡◌, arith,
}
use ion_dtn_terrestrial.Prelude.Bits.{Bytes}

-- `n = encode(..., out + pos, out_size - pos); if (n < 0) return -1; pos += n;`
unfoldable pub put : (ℕ → Option Bytes) → Bytes → ℕ → Option Bytes
put encode out out_size = do bytes ← encode (out_size - length out); some (out ++ bytes)

-- No array has 2^63 bytes, so no sum of sizes and lengths wraps around.
abbrev pub IsSize : ℕ → Type 0
IsSize n = n < 2 ^ 63

-- The encoder writes exactly `bytes` if they fit, and fails otherwise.
pub record Encodes (encode : ℕ → Option Bytes) (bytes : Bytes) : Type 0 where
  pub at : (n : ℕ) → IsSize n → encode n ≡ (if ltb n (length bytes) then none else some bytes)

-- The same of a step that appends to what has been written.
pub record Writes (write : Bytes → ℕ → Option Bytes) (bytes : Bytes) : Type 0 where
  pub at :
      (out : Bytes) (n : ℕ)
      → IsSize n
      → length out ≤ n
      → write out n ≡ (if ltb n (length out + length bytes) then none else some (out ++ bytes))

pub put-Writes :
    {encode : ℕ → Option Bytes} {bytes : Bytes} → Encodes encode bytes → Writes (put encode) bytes
unfolding put
put-Writes h = record { at = λ out n size room. ground (arith, h.at (n - length out)) }

pub return-Writes : Writes (λ out n. some out) []
return-Writes = record { at = λ out n size room. ground (arith, append-nil out) }

-- One step after the other.
pub then-Writes :
    {first second : Bytes → ℕ → Option Bytes} {xs ys : Bytes}
    → Writes first xs
    → Writes second ys
    → Writes (λ out n. first out n >>= λ out'. second out' n) (xs ++ ys)
then-Writes {xs} {ys} h k = record {
  at = λ out n size room. ground (
    arith,
    h.at out n size room,
    k.at (out ++ xs) n size,
    length-append out xs,
    length-append xs ys,
    append_assoc out xs ys,
  );
}

-- An encoder that appends to an empty buffer.
pub Encodes-Writes :
    {write : Bytes → ℕ → Option Bytes} {bytes : Bytes}
    → Writes write bytes
    → Encodes (write []) bytes
Encodes-Writes h = record { at = λ n size. ground (arith, h.at [] n size (omega arith)) }

pub Encodes-eq-some :
    {encode : ℕ → Option Bytes} {bytes : Bytes} (n : ℕ) {written : Bytes}
    → Encodes encode bytes
    → IsSize n
    → encode n ≡ some written
    → (written ≡ bytes) × (length bytes ≤ n)
Encodes-eq-some n h size e = ground (arith, h.at n size)

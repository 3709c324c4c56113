-- ===== src/Bp/Reassembly.antt =====
-- kiss-interface/bp.c: reassembly of a bundle from its fragments. The arrays of the context are
-- functions of the index.
pub mod Counting
pub mod Stored
pub mod Complete
pub mod Bounds
use ion_dtn_terrestrial.Prelude.{
  ℕ, zero, suc, ◌+◌, ◌%◌, ◌^◌, Bool, true, false, ◌==◌, ltb, leb, not, ◌&&◌, if◌then◌else◌, List,
  [], ◌∷◌, take, Option, none, some,
}
use ion_dtn_terrestrial.Prelude.Bits.{Bytes}
use ion_dtn_terrestrial.Bp.{max_payload, Timestamp, Primary, Bundle, is_fragment}

pub record Reassembly : Type 0 where
  pub active : Bool
  pub src : Bytes
  pub timestamp : Timestamp
  pub total_adu_len : ℕ
  pub data_at : ℕ → ℕ
  pub received : ℕ → Bool
  pub bytes_received : ℕ
  pub lifetime_ms : ℕ

unfoldable pub bp_reassembly_init : Reassembly
bp_reassembly_init = record {
  active = false;
  src = [];
  timestamp = record { time = 0; seq = 0 };
  total_adu_len = 0;
  data_at = λ i. 0;
  received = λ i. false;
  bytes_received = 0;
  lifetime_ms = 0;
}

-- `strcmp(s, t) == 0`
abbrev pub same_string : Bytes → Bytes → Bool
same_string [] [] = true
same_string [] (d ∷ t) = false
same_string (c ∷ s) [] = false
same_string (c ∷ s) (d ∷ t) = c == d && same_string s t

-- `array[i] = value`
abbrev pub set {ℓ} : {A : Type ℓ} → (ℕ → A) → ℕ → A → ℕ → A
set array i value j = if j == i then value else array j

-- `memcpy(array + off, bytes, n)`, where `bytes` are the n bytes.
unfoldable pub copy : (ℕ → ℕ) → ℕ → Bytes → ℕ → ℕ
copy array off [] = array
copy array off (b ∷ bytes) = copy (set array off b) (suc off) bytes

unfoldable pub mark_byte : Reassembly → ℕ → Reassembly
mark_byte ctx i =
    if ctx.received i
    then ctx
    else record ctx { received = set ctx.received i true; bytes_received = suc ctx.bytes_received }

-- The loop, with n bytes to mark from `i` on.
unfoldable pub mark_loop : Reassembly → ℕ → ℕ → Reassembly
unfolding mark_byte
mark_loop ctx i zero = ctx
mark_loop ctx i (suc n) = mark_loop (mark_byte ctx i) (suc i) n

-- An inactive context is bound to the bundle of the fragment.
unfoldable pub bind_context : Reassembly → Primary → Reassembly
bind_context ctx primary = if ctx.active then ctx else record ctx {
  active = true;
  src = primary.src;
  timestamp = primary.timestamp;
  total_adu_len = primary.total_adu_len;
  bytes_received = 0;
  lifetime_ms = primary.lifetime_ms;
}

-- "Verify matching fragment"
unfoldable pub matching : Reassembly → Primary → Bool
matching ctx primary =
    same_string ctx.src primary.src
    && (ctx.timestamp.time == primary.timestamp.time
        && (ctx.timestamp.seq == primary.timestamp.seq
            && ctx.total_adu_len == primary.total_adu_len))

-- The range ends within the bundle and within the array, as far as a uint64 tells.
unfoldable pub in_range : Reassembly → Bundle → Bool
in_range ctx frag =
    let end = (frag.primary.fragment_offset + frag.payload_len) % 2 ^ 64 in
    leb end ctx.total_adu_len && leb end max_payload

unfoldable pub store_fragment : Reassembly → Bundle → Reassembly
store_fragment ctx frag =
    let off = frag.primary.fragment_offset in
    if ltb 0 frag.payload_len
    then mark_loop
        (record ctx { data_at = copy ctx.data_at off (take frag.payload_len frag.payload) }) off
        frag.payload_len
    else ctx

abbrev is_complete : Reassembly → Bool
is_complete ctx = leb ctx.total_adu_len ctx.bytes_received

-- `none` is -1, and the Boolean is 1 or 0.
unfoldable pub bp_reassembly_add : Reassembly → Bundle → Reassembly × Option Bool
bp_reassembly_add ctx frag =
    if not (is_fragment frag.primary.flags)
    then (ctx, none)
    else let bound = bind_context ctx frag.primary in
      if not (matching bound frag.primary && in_range bound frag)
      then (bound, none)
      else let stored = store_fragment bound frag in (stored, some (is_complete stored))

-- What `fwrite(data, 1, n, f)` writes, from `i` on.
unfoldable pub stored_bytes : (ℕ → ℕ) → ℕ → ℕ → Bytes
stored_bytes array i zero = []
stored_bytes array i (suc n) = array i ∷ stored_bytes array (suc i) n

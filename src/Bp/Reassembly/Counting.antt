-- ===== src/Bp/Reassembly/Counting.antt =====
-- The bytes that a reassembly context of kiss-interface/bp.c counts.
use ion_dtn_terrestrial.Prelude.{
  ℕ, zero, suc, ◌+◌, ◌≤◌, ◌<◌, Bool, true, false, ◌==◌, ltb, leb, ◌&&◌, ◌||◌, if◌then◌else◌,
  Bool-cases, inl, inr, ◌≡◌, ◌∙◌, refl, sym, ap, arith,
}
use ion_dtn_terrestrial.Bp.Reassembly.{Reassembly, set, mark_byte, mark_loop}

-- How many of the first n are set.
unfoldable pub count : (ℕ → Bool) → ℕ → ℕ
count flags zero = 0
count flags (suc n) = if flags n then suc (count flags n) else count flags n

-- Whether all of the first n are set.
unfoldable pub all_set : (ℕ → Bool) → ℕ → Bool
all_set flags zero = true
all_set flags (suc n) = flags n && all_set flags n

pub count-ext :
    (flags others : ℕ → Bool) (n : ℕ)
    → ((i : ℕ) → flags i ≡ others i)
    → count flags n ≡ count others n
unfolding count
count-ext flags others zero h = refl
count-ext flags others (suc n) h = rw (h n, count-ext flags others n h) refl

pub count-none : (flags : ℕ → Bool) (n : ℕ) → ((i : ℕ) → flags i ≡ false) → count flags n ≡ 0
unfolding count
count-none flags zero h = refl
count-none flags (suc n) h = rw (h n, count-none flags n h) refl

pub all_set-ext :
    (flags others : ℕ → Bool) (n : ℕ)
    → ((i : ℕ) → flags i ≡ others i)
    → all_set flags n ≡ all_set others n
unfolding all_set
all_set-ext flags others zero h = refl
all_set-ext flags others (suc n) h = rw (h n, all_set-ext flags others n h) refl

count_le : (flags : ℕ → Bool) (n : ℕ) → count flags n ≤ n
unfolding count
count_le flags zero = omega arith
count_le flags (suc n) = ground (arith, count_le flags n)

-- All are set exactly when the count reaches n.
pub all_set-count : (flags : ℕ → Bool) (n : ℕ) → leb n (count flags n) ≡ all_set flags n
unfolding count all_set
all_set-count flags zero = refl
all_set-count flags (suc n) = ground (arith, all_set-count flags n, count_le flags n)

pub all_set-true : (flags : ℕ → Bool) (n i : ℕ) → all_set flags n ≡ true → i < n → flags i ≡ true
unfolding all_set
all_set-true flags zero i h lt = ground arith
all_set-true flags (suc n) i h lt = ground (arith, all_set-true flags n i)

count-above : (flags : ℕ → Bool) (n i : ℕ) → n ≤ i → count (set flags i true) n ≡ count flags n
unfolding count
count-above flags zero i h = refl
count-above flags (suc n) i h = ground (arith, count-above flags n i)

count-set :
    (flags : ℕ → Bool) (n i : ℕ)
    → i < n
    → flags i ≡ false
    → count (set flags i true) n ≡ suc (count flags n)
unfolding count
count-set flags zero i h new = ground arith
count-set flags (suc n) i h new = ground (arith, count-set flags n i, count-above flags n i)

mark_byte-received :
    (ctx : Reassembly) (i j : ℕ) → (mark_byte ctx i).received j ≡ (ctx.received j || j == i)
unfolding mark_byte
mark_byte-received ctx i j = ground arith

mark_byte-rest :
    (ctx : Reassembly) (i : ℕ)
    → mark_byte ctx i ≡ record ctx {
      received = (mark_byte ctx i).received;
      bytes_received = (mark_byte ctx i).bytes_received;
    }
unfolding mark_byte
mark_byte-rest ctx i = elim (Bool-cases (ctx.received i)) [
  | inl old ↦ rw old refl
  | inr new ↦ rw new refl
]

mark_byte-counted :
    (ctx : Reassembly) (i total : ℕ)
    → i < total
    → ctx.bytes_received ≡ count ctx.received total
    → (mark_byte ctx i).bytes_received ≡ count (mark_byte ctx i).received total
unfolding mark_byte
mark_byte-counted ctx i total h e = elim (Bool-cases (ctx.received i)) [
  | inl old ↦ rw old e
  | inr new ↦ rw new (ap suc e ∙ sym (count-set ctx.received total i h new))
]

-- The loop marks its range and no other byte.
pub mark_loop-received :
    (ctx : Reassembly) (i n j : ℕ)
    → (mark_loop ctx i n).received j ≡ (ctx.received j || (leb i j && ltb j (i + n)))
unfolding mark_loop
mark_loop-received ctx i zero j = ground arith
mark_loop-received ctx i (suc n) j =
    ground (arith, mark_loop-received (mark_byte ctx i) (suc i) n j, mark_byte-received ctx i j)

-- Only the marks and their number change.
pub mark_loop-rest :
    (ctx : Reassembly) (i n : ℕ)
    → mark_loop ctx i n ≡ record ctx {
      received = (mark_loop ctx i n).received;
      bytes_received = (mark_loop ctx i n).bytes_received;
    }
unfolding mark_loop
mark_loop-rest ctx i zero = refl
mark_loop-rest ctx i (suc n) =
    let end = mark_loop (mark_byte ctx i) (suc i) n in
    mark_loop-rest (mark_byte ctx i) (suc i) n
    ∙ ap {A = Reassembly} {B = Reassembly}
        (λ c. record c { received = end.received; bytes_received = end.bytes_received })
        (mark_byte-rest ctx i)

pub mark_loop-counted :
    (ctx : Reassembly) (i n total : ℕ)
    → i + n ≤ total
    → ctx.bytes_received ≡ count ctx.received total
    → (mark_loop ctx i n).bytes_received ≡ count (mark_loop ctx i n).received total
unfolding mark_loop
mark_loop-counted ctx i zero total h e = e
mark_loop-counted ctx i (suc n) total h e =
    mark_loop-counted (mark_byte ctx i) (suc i) n total (omega arith)
      (mark_byte-counted ctx i total (omega arith) e)

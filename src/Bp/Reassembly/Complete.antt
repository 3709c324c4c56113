-- ===== src/Bp/Reassembly/Complete.antt =====
-- Reassembly in kiss-interface/bp.c: the context after any fragments of one bundle, in any order,
-- and what is stored when all bytes have come.
use ion_dtn_terrestrial.Prelude.{
  ℕ, ◌+◌, ◌≤◌, Bool, true, false, ltb, leb, ◌&&◌, ◌||◌, Bool-cases, inl, inr, List, [], ◌∷◌, length,
  length-take, length-drop, take, drop, All, get_elem?, some, ◌≡◌, ◌∙◌, refl, sym, ap, arith,
}
use ion_dtn_terrestrial.Prelude.Bits.{Bytes}
use ion_dtn_terrestrial.Bp.{max_payload, Primary, Bundle, is_fragment}
use ion_dtn_terrestrial.Bp.Reassembly.{
  Reassembly, bp_reassembly_init, same_string, copy, mark_loop, bind_context, matching, in_range,
  store_fragment, bp_reassembly_add, stored_bytes,
}
use ion_dtn_terrestrial.Bp.Reassembly.Counting.{
  count, all_set, count-none, all_set-ext, all_set-count, all_set-true, mark_loop-received,
  mark_loop-rest, mark_loop-counted,
}
use ion_dtn_terrestrial.Bp.Reassembly.Stored.{stored_bytes-drop, copy-outside, copy-inside}

-- The bytes that some fragment carries.
unfoldable pub covered : List Bundle → ℕ → Bool
covered [] j = false
covered (frag ∷ parts) j =
    let off = frag.primary.fragment_offset in
    covered parts j || (leb off j && ltb j (off + frag.payload_len))

-- A fragment of the application data `adu` of the bundle that `key` names.
pub record IsPart (key : Primary) (adu : Bytes) (frag : Bundle) : Type 0 where
  pub fragment : is_fragment frag.primary.flags ≡ true
  pub same_src : frag.primary.src ≡ key.src
  pub same_time : frag.primary.timestamp ≡ key.timestamp
  pub whole : frag.primary.total_adu_len ≡ length adu
  pub inside : frag.primary.fragment_offset + frag.payload_len ≤ length adu
  pub same_bytes :
      take frag.payload_len frag.payload
      ≡ take frag.payload_len (drop frag.primary.fragment_offset adu)

-- The context of a bundle of which exactly `parts` have come.
pub record Holds (key : Primary) (adu : Bytes) (parts : List Bundle) (ctx : Reassembly)
    : Type 0 where
  pub active : ctx.active ≡ true
  pub same_src : ctx.src ≡ key.src
  pub same_time : ctx.timestamp ≡ key.timestamp
  pub whole : ctx.total_adu_len ≡ length adu
  pub marks : (j : ℕ) → ctx.received j ≡ covered parts j
  pub counted : ctx.bytes_received ≡ count ctx.received ctx.total_adu_len
  pub stored : (j : ℕ) → covered parts j ≡ true → get_elem? adu j ≡ some (ctx.data_at j)

same_string_refl : (s : Bytes) → same_string s s ≡ true
same_string_refl [] = refl
same_string_refl (c ∷ s) = ground (arith, same_string_refl s)

matching-part :
    (key : Primary) (adu : Bytes) (parts : List Bundle) (ctx : Reassembly) (frag : Bundle)
    → Holds key adu parts ctx
    → IsPart key adu frag
    → matching ctx frag.primary ≡ true
unfolding matching
matching-part key adu parts ctx frag h part =
    rw
      (
        h.same_src,
        part.same_src,
        h.same_time,
        part.same_time,
        h.whole,
        part.whole,
        same_string_refl key.src,
      )
      (ground arith)

in_range-part :
    (key : Primary) (adu : Bytes) (parts : List Bundle) (ctx : Reassembly) (frag : Bundle)
    → Holds key adu parts ctx
    → IsPart key adu frag
    → length adu ≤ max_payload
    → in_range ctx frag ≡ true
unfolding in_range
in_range-part key adu parts ctx frag h part room = ground (arith, h.whole, part.inside)

abbrev pub with_bytes : Reassembly → Bundle → Reassembly
with_bytes ctx frag = record ctx {
  data_at = copy ctx.data_at frag.primary.fragment_offset (take frag.payload_len frag.payload);
}

-- An empty fragment needs no test.
pub store_fragment_lem :
    (ctx : Reassembly) (frag : Bundle)
    → store_fragment ctx frag
      ≡ mark_loop (with_bytes ctx frag) frag.primary.fragment_offset frag.payload_len
unfolding store_fragment copy mark_loop
store_fragment_lem ctx frag = elim (Bool-cases (ltb 0 frag.payload_len)) [
  | inl some_bytes ↦ rw some_bytes refl
  | inr empty ↦ let no_bytes : frag.payload_len ≡ 0 = ground arith in rw (empty, no_bytes) refl
]

stored-part :
    (key : Primary) (adu : Bytes) (parts : List Bundle) (ctx : Reassembly) (frag : Bundle) (j : ℕ)
    → Holds key adu parts ctx
    → IsPart key adu frag
    → covered (frag ∷ parts) j ≡ true
    → get_elem? adu j ≡ some ((with_bytes ctx frag).data_at j)
unfolding covered
stored-part key adu parts ctx frag j h part cov =
    let off = frag.primary.fragment_offset in
    let n = frag.payload_len in
    let bytes = take n (drop off adu) in
    let len : length bytes ≡ n =
      omega (arith, length-take n (drop off adu), length-drop off adu, part.inside) in
    rw part.same_bytes (elim (Bool-cases (leb off j && ltb j (off + n))) [
      | inl new ↦ copy-inside ctx.data_at adu off n j part.inside new
      | inr old ↦
          let before : covered parts j ≡ true = ground (arith, cov, old) in
          let outside : (leb off j && ltb j (off + length bytes)) ≡ false = rw len old in
          h.stored j before ∙ ap some (sym (copy-outside ctx.data_at off bytes j outside))
    ])

store-part :
    (key : Primary) (adu : Bytes) (parts : List Bundle) (ctx : Reassembly) (frag : Bundle)
    → Holds key adu parts ctx
    → IsPart key adu frag
    → Holds key adu (frag ∷ parts) (store_fragment ctx frag)
unfolding covered
store-part key adu parts ctx frag h part =
    let off = frag.primary.fragment_offset in
    let n = frag.payload_len in
    let copied = with_bytes ctx frag in
    let rest = mark_loop-rest copied off n in
    let total = ap Reassembly.total_adu_len rest in
    rw (store_fragment_lem ctx frag) (record {
      active = ap Reassembly.active rest ∙ h.active;
      same_src = ap Reassembly.src rest ∙ h.same_src;
      same_time = ap Reassembly.timestamp rest ∙ h.same_time;
      whole = total ∙ h.whole;
      marks = λ j.
          mark_loop-received copied off n j
          ∙ ap (λ b. b || (leb off j && ltb j (off + n))) (h.marks j);
      counted =
          mark_loop-counted copied off n ctx.total_adu_len (omega (arith, part.inside, h.whole))
            h.counted
          ∙ ap (count (mark_loop copied off n).received) (sym total);
      stored = λ j cov.
          stored-part key adu parts ctx frag j h part cov
          ∙ ap (λ c. some (Reassembly.data_at c j)) (sym rest);
    })

-- A fragment of the bundle is stored, and reported as the last one exactly when all bytes have come.
add-part :
    (key : Primary) (adu : Bytes) (parts : List Bundle) (ctx : Reassembly) (frag : Bundle)
    → Holds key adu parts (bind_context ctx frag.primary)
    → IsPart key adu frag
    → length adu ≤ max_payload
    → Holds key adu (frag ∷ parts) (bp_reassembly_add ctx frag).0
      × ((bp_reassembly_add ctx frag).1 ≡ some (all_set (covered (frag ∷ parts)) (length adu)))
unfolding bp_reassembly_add
add-part key adu parts ctx frag h part room =
    let bound = bind_context ctx frag.primary in
    let next = store-part key adu parts bound frag h part in
    let stored = store_fragment bound frag in
    let complete : leb stored.total_adu_len stored.bytes_received
        ≡ all_set (covered (frag ∷ parts)) (length adu) =
      rw (next.counted, next.whole)
        (all_set-count stored.received (length adu)
          ∙ all_set-ext stored.received (covered (frag ∷ parts)) (length adu) next.marks) in
    rw
      (
        part.fragment,
        matching-part key adu parts bound frag h part,
        in_range-part key adu parts bound frag h part room,
      )
      (next, ap some complete)

-- The context after the fragments, of which the last one stands first.
unfoldable pub after : List Bundle → Reassembly
unfolding bp_reassembly_init
after [] = bp_reassembly_init
after (frag ∷ parts) = (bp_reassembly_add (after parts) frag).0

after-Holds :
    (key : Primary) (adu : Bytes) (parts : List Bundle) (primary : Primary)
    → All (IsPart key adu) parts
    → primary.src ≡ key.src
    → primary.timestamp ≡ key.timestamp
    → primary.total_adu_len ≡ length adu
    → length adu ≤ max_payload
    → Holds key adu parts (bind_context (after parts) primary)
unfolding after bind_context covered bp_reassembly_init
after-Holds key adu [] primary parts-ok src time whole room = record {
  active = refl;
  same_src = src;
  same_time = time;
  whole = whole;
  marks = λ j. refl;
  counted = sym (count-none bp_reassembly_init.received primary.total_adu_len (λ j. refl));
  stored = λ j e. ground arith;
}
after-Holds key adu (frag ∷ parts) primary (part, others) src time whole room =
    let before =
      after-Holds key adu parts frag.primary others part.same_src part.same_time part.whole room in
    let (now, result) = add-part key adu parts (after parts) frag before part room in
    rw now.active now

-- Fragments of one bundle of at most 65535 bytes that come in any order and with any repetition,
-- the last one first in the list: each is accepted, and the last one is reported as completing
-- the bundle exactly when every byte of it has come.
pub reassembly_add-parts :
    (key : Primary) (adu : Bytes) (frag : Bundle) (parts : List Bundle)
    → All (IsPart key adu) (frag ∷ parts)
    → length adu ≤ max_payload
    → (bp_reassembly_add (after parts) frag).1
      ≡ some (all_set (covered (frag ∷ parts)) (length adu))
reassembly_add-parts key adu frag parts (part, others) room =
    let before =
      after-Holds key adu parts frag.primary others part.same_src part.same_time part.whole room in
    (add-part key adu parts (after parts) frag before part room).1

-- When every byte has come, the first bytes of the array are the application data, and there are
-- as many as the context says.
pub reassembly_add_complete :
    (key : Primary) (adu : Bytes) (frag : Bundle) (parts : List Bundle)
    → All (IsPart key adu) (frag ∷ parts)
    → length adu ≤ max_payload
    → all_set (covered (frag ∷ parts)) (length adu) ≡ true
    → ((after (frag ∷ parts)).total_adu_len ≡ length adu)
      × (stored_bytes (after (frag ∷ parts)).data_at 0 (length adu) ≡ adu)
unfolding after
reassembly_add_complete key adu frag parts (part, others) room all =
    let before =
      after-Holds key adu parts frag.primary others part.same_src part.same_time part.whole room in
    let (now, result) = add-part key adu parts (after parts) frag before part room in
    (
      now.whole,
      stored_bytes-drop (bp_reassembly_add (after parts) frag).0.data_at adu 0 (length adu)
          (omega arith)
          (λ j lt. now.stored j (all_set-true (covered (frag ∷ parts)) (length adu) j all lt)),
    )

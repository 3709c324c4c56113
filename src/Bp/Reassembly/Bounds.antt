-- ===== src/Bp/Reassembly/Bounds.antt =====
-- Reassembly in kiss-interface/bp.c on any fragments: the context stays consistent.
use ion_dtn_terrestrial.Prelude.{
  ℕ, ◌+◌, ◌^◌, ◌≤◌, ◌<◌, Bool, true, false, ◌&&◌, Bool-cases, inl, inr, List, [], ◌∷◌, length,
  replicate, All, Option, none, ◌≡◌, ◌∙◌, refl, sym, ap, arith,
}
use ion_dtn_terrestrial.Prelude.Bits.{Bytes}
use ion_dtn_terrestrial.Bp.{max_payload, Primary, Bundle, is_fragment}
use ion_dtn_terrestrial.Bp.Reassembly.{
  Reassembly, same_string, bp_reassembly_init, mark_loop, bind_context, matching, in_range,
  store_fragment, bp_reassembly_add,
}
use ion_dtn_terrestrial.Bp.Reassembly.Counting.{
  count, count-none, mark_loop-received, mark_loop-rest, mark_loop-counted,
}
use ion_dtn_terrestrial.Bp.Reassembly.Complete.{with_bytes, store_fragment_lem}

-- The marks lie within the bundle and the array, they are counted, and an idle context has none.
pub record IsReassembly (ctx : Reassembly) : Type 0 where
  pub inside : (j : ℕ) → ctx.received j ≡ true → (j < ctx.total_adu_len) × (j < max_payload)
  pub counted : ctx.bytes_received ≡ count ctx.received ctx.total_adu_len
  pub idle : ctx.active ≡ false → (j : ℕ) → ctx.received j ≡ false

pub init-IsReassembly : IsReassembly bp_reassembly_init
unfolding bp_reassembly_init count
init-IsReassembly = record { inside = λ j e. ground arith; counted = refl; idle = λ e j. refl }

bind-IsReassembly :
    (ctx : Reassembly) (primary : Primary)
    → IsReassembly ctx
    → IsReassembly (bind_context ctx primary) × ((bind_context ctx primary).active ≡ true)
unfolding bind_context
bind-IsReassembly ctx primary h = elim (Bool-cases ctx.active) [
  | inl busy ↦ let same : bind_context ctx primary ≡ ctx = simp busy in rw same (h, busy)
  | inr free ↦ rw free (
    record {
      inside = λ j e. ground (arith, e, h.idle free j);
      counted = sym (count-none ctx.received primary.total_adu_len (h.idle free));
      idle = λ e. h.idle free;
    },
    refl,
  )
]

store-IsReassembly :
    (ctx : Reassembly) (frag : Bundle)
    → IsReassembly ctx
    → ctx.active ≡ true
    → frag.primary.fragment_offset + frag.payload_len ≤ ctx.total_adu_len
    → frag.primary.fragment_offset + frag.payload_len ≤ max_payload
    → IsReassembly (store_fragment ctx frag)
store-IsReassembly ctx frag h busy fits room =
    let off = frag.primary.fragment_offset in
    let n = frag.payload_len in
    let copied = with_bytes ctx frag in
    let rest = mark_loop-rest copied off n in
    let total = ap Reassembly.total_adu_len rest in
    let active = ap Reassembly.active rest ∙ busy in
    rw (store_fragment_lem ctx frag) (record {
      inside = λ j e. ground (arith, mark_loop-received copied off n j, total, e, h.inside j);
      counted =
          mark_loop-counted copied off n ctx.total_adu_len fits h.counted
          ∙ ap (count (mark_loop copied off n).received) (sym total);
      idle = λ e j. ground (arith, active, e);
    })

-- A fragment whose end is a uint64 keeps the context consistent, accepted or not: what is marked
-- lies within the bundle and within the array, and `bytes_received` counts it.
pub reassembly_add-IsReassembly :
    (ctx : Reassembly) (frag : Bundle)
    → IsReassembly ctx
    → frag.primary.fragment_offset + frag.payload_len < 2 ^ 64
    → IsReassembly (bp_reassembly_add ctx frag).0
unfolding bp_reassembly_add in_range
reassembly_add-IsReassembly ctx frag h small =
    let bound = bind_context ctx frag.primary in
    let (bound-ok, busy) = bind-IsReassembly ctx frag.primary h in
    elim (Bool-cases (is_fragment frag.primary.flags)) [
      | inr whole ↦ rw whole h
      | inl part ↦ rw part (elim (Bool-cases (matching bound frag.primary && in_range bound frag)) [
        | inr refused ↦ rw refused bound-ok
        | inl accepted ↦ rw accepted (
            store-IsReassembly bound frag bound-ok busy (ground (arith, accepted))
              (ground (arith, accepted)))
      ])
    ]

-- Several fragments, and what is returned for each.
unfoldable pub add_all : Reassembly → List Bundle → Reassembly × List (Option Bool)
add_all ctx [] = (ctx, [])
add_all ctx (frag ∷ frags) =
    let (next, result) = bp_reassembly_add ctx frag in
    let (end, results) = add_all next frags in (end, result ∷ results)

-- A fragment of another bundle than that of the context.
abbrev pub IsForeign : Reassembly → Bundle → Type 0
IsForeign ctx frag = ¬ ((frag.primary.src ≡ ctx.src) × (frag.primary.timestamp ≡ ctx.timestamp))

same_string-eq : (s t : Bytes) → same_string s t ≡ true → t ≡ s
same_string-eq [] [] h = refl
same_string-eq [] (d ∷ t) h = ground arith
same_string-eq (c ∷ s) [] h = ground arith
same_string-eq (c ∷ s) (d ∷ t) h = ground (arith, same_string-eq s t)

matching-foreign :
    (ctx : Reassembly) (frag : Bundle) → IsForeign ctx frag → matching ctx frag.primary ≡ false
unfolding matching
matching-foreign ctx frag h = elim (Bool-cases (matching ctx frag.primary)) [
  | inr differs ↦ differs
  | inl same ↦
      let src : frag.primary.src ≡ ctx.src =
        same_string-eq ctx.src frag.primary.src (ground (arith, same)) in
      let time : frag.primary.timestamp.time ≡ ctx.timestamp.time = ground (arith, same) in
      let seq : frag.primary.timestamp.seq ≡ ctx.timestamp.seq = ground (arith, same) in
      absurd (h (src, λ i. record { time = time i; seq = seq i }))
]

bound-same :
    (ctx : Reassembly) (primary : Primary) → ctx.active ≡ true → bind_context ctx primary ≡ ctx
unfolding bind_context
bound-same ctx primary busy = simp busy

refused :
    (ctx : Reassembly) (frag : Bundle)
    → ctx.active ≡ true
    → IsForeign ctx frag
    → bp_reassembly_add ctx frag ≡ (ctx, none)
unfolding bp_reassembly_add
refused ctx frag busy foreign = elim (Bool-cases (is_fragment frag.primary.flags)) [
  | inr whole ↦ rw whole refl
  | inl part ↦ rw (part, bound-same ctx frag.primary busy, matching-foreign ctx frag foreign) refl
]

-- A context that is bound to a bundle refuses every fragment of any other bundle and does not
-- change, however many come: until its own bundle is complete, no other can be reassembled.
pub add_all-foreign :
    (ctx : Reassembly) (frags : List Bundle)
    → ctx.active ≡ true
    → All (IsForeign ctx) frags
    → add_all ctx frags ≡ (ctx, replicate (length frags) none)
unfolding add_all
add_all-foreign ctx [] busy h = refl
add_all-foreign ctx (frag ∷ frags) busy (foreign, others) =
    rw (refused ctx frag busy foreign, add_all-foreign ctx frags busy others) refl

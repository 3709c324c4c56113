-- ===== src/Transfer/Fragments.antt =====
-- The fragments that kiss-interface/main.c sends, in the receiving callback.
use ion_dtn_terrestrial.Prelude.{
  ℕ, zero, suc, ◌+◌, ◌*◌, ◌%◌, ◌^◌, ◌≤◌, ◌<◌, Bool, true, false, ltb, leb, le→ltb, if◌then◌else◌,
  Bool-cases, inl, inr, min, List, [], ◌∷◌, length, length-take, length-drop, append-nil, take,
  take-append, drop, All, Option, none, some, ◌≡◌, ◌∙◌, refl, sym, ap, arith,
}
use ion_dtn_terrestrial.Prelude.Bits.{Bytes}
use ion_dtn_terrestrial.Sdnv.{IsU64}
use ion_dtn_terrestrial.Bp.{Bundle}
use ion_dtn_terrestrial.Bp.Decode.{bp_decode_bundle}
use ion_dtn_terrestrial.Bp.Encode.{PrimaryArgs, encode_blocks, bp_encode_fragment}
use ion_dtn_terrestrial.Bp.Wire.{bundle_wire, encode_blocks-Encodes}
use ion_dtn_terrestrial.Bp.RoundTrip.{sent_bundle, fragment_args, decode-encode_fragment}
use ion_dtn_terrestrial.Bp.Items.{IsEid}
use ion_dtn_terrestrial.Bp.Reassembly.{
  Reassembly, bp_reassembly_init, bp_reassembly_add, stored_bytes,
}
use ion_dtn_terrestrial.Bp.Reassembly.Counting.{all_set, all_set-ext}
use ion_dtn_terrestrial.Bp.Reassembly.Complete.{
  IsPart, covered, after, reassembly_add-parts, reassembly_add_complete,
}
use ion_dtn_terrestrial.Transfer.{
  max_fragments, default_fragment_size, fragment_len, send_fragments, encode_nth, BpRecvCtx,
  write_out, after_fragment, received_bundle, bp_recv_block_cb,
}
use ion_dtn_terrestrial.Transfer.Sizes.{bundle_wire_le}

-- A link that gives every block to the callback once.
abbrev pub reliable : BpRecvCtx → Bytes → BpRecvCtx × Bool
reliable rc block = (bp_recv_block_cb rc block, true)

all_set-below : (m n : ℕ) → all_set (λ j. ltb j m) n ≡ leb n m
unfolding all_set
all_set-below m zero = ground arith
all_set-below m (suc n) = ground (arith, all_set-below m n)

-- What is sent: endpoints that fit, and a payload that 64 fragments can carry.
pub record IsSending (src dst payload : Bytes) (lifetime_ms seq time : ℕ) : Type 0 where
  pub src_fits : IsEid src
  pub dst_fits : IsEid dst
  pub lifetime_fits : IsU64 lifetime_ms
  pub seq_fits : IsU64 seq
  pub time_fits : IsU64 time
  pub few : length payload ≤ max_fragments * default_fragment_size

after_fragment-some :
    (rc : BpRecvCtx) (added : Reassembly × Option Bool) (complete : Bool)
    → added.1 ≡ some complete
    → after_fragment rc added ≡ (
        if complete
        then write_out
            (record rc { reasm = bp_reassembly_init })
            (stored_bytes added.0.data_at 0 added.0.total_adu_len)
        else record rc { reasm = added.0 })
unfolding after_fragment
after_fragment-some rc (reasm, none) complete e = cc
after_fragment-some rc (reasm, some true) true e = refl
after_fragment-some rc (reasm, some false) false e = refl
after_fragment-some rc (reasm, some true) false e = cc
after_fragment-some rc (reasm, some false) true e = cc

module _ (src dst payload : Bytes) (lifetime_ms seq time : ℕ)
    (sending : IsSending src dst payload lifetime_ms seq time) where
  abbrev piece_len : ℕ → ℕ
  piece_len f = fragment_len (length payload) (f * 512)

  abbrev piece : ℕ → Bytes
  piece f = take (piece_len f) (drop (f * 512) payload)

  abbrev args : ℕ → PrimaryArgs
  args f = fragment_args src dst lifetime_ms seq (f * 512) (length payload) time

  abbrev sent_fragment : ℕ → Bundle
  sent_fragment f = sent_bundle (args f) (piece f) []

  -- The first n fragments, the last one first.
  unfoldable pub sent : ℕ → List Bundle
  sent zero = []
  sent (suc n) = sent_fragment n ∷ sent n

  length-piece : (f : ℕ) → length (piece f) ≡ piece_len f
  length-piece f =
      ground
        (arith, length-take (piece_len f) (drop (f * 512) payload), length-drop (f * 512) payload)

  piece_le : (f : ℕ) → length (piece f) ≤ 512
  piece_le f = ground (arith, length-piece f)

  covered-sent : (n j : ℕ) → covered (sent n) j ≡ ltb j (min (n * 512) (length payload))
  unfolding sent covered
  covered-sent zero j = ground arith
  covered-sent (suc n) j = ground (arith, covered-sent n j, length-piece n)

  part :
      (f : ℕ)
      → f * 512 < length payload
      → IsPart (sent_fragment 0).primary payload (sent_fragment f)
  part f h = record {
    fragment = refl;
    same_src = refl;
    same_time = refl;
    whole = refl;
    inside = ground (arith, length-piece f);
    same_bytes =
        take-append (piece f) (0xFF ∷ [])
        ∙ ap (λ n. take n (drop (f * 512) payload)) (sym (length-piece f));
  }

  sent-IsPart :
      (n : ℕ)
      → n * 512 < length payload + 512
      → All (IsPart (sent_fragment 0).primary payload) (sent n)
  unfolding sent
  sent-IsPart zero h = tt
  sent-IsPart (suc n) h = (part n (omega arith), sent-IsPart n (omega arith))

  abbrev wire : ℕ → Bytes
  wire f = bundle_wire (args f) (piece f)

  -- Every fragment fits the buffer.
  encode_blocks-wire : (f : ℕ) → encode_blocks (args f) (piece f) 2048 ≡ some (wire f)
  encode_blocks-wire f =
      let small = bundle_wire_le (args f) (piece f) sending.src_fits sending.dst_fits in
      let fits : ltb 2048 (length (wire f)) ≡ false =
        le→ltb 2048 (length (wire f)) (omega (arith, small, piece_le f)) in
      (encode_blocks-Encodes (args f) (piece f)).at 2048 (omega arith) ∙ rw fits refl

  encode_nth-wire :
      (f : ℕ)
      → f * 512 < length payload
      → encode_nth src dst payload lifetime_ms seq time f ≡ some (wire f)
  unfolding encode_nth bp_encode_fragment
  encode_nth-wire f h =
      let off : f * 512 % 2 ^ 64 ≡ f * 512 = omega (arith, sending.few) in
      rw off (encode_blocks-wire f)

  decode-wire :
      (f : ℕ) → f * 512 < length payload → bp_decode_bundle (wire f) ≡ some (sent_fragment f, [])
  unfolding bp_encode_fragment
  decode-wire f h =
      ap bp_decode_bundle (sym (append-nil (wire f)))
      ∙ decode-encode_fragment src dst (piece f) lifetime_ms seq (f * 512) (length payload) time
          2048 []
          (record {
            flags_fit = omega arith;
            src_fits = sending.src_fits;
            dst_fits = sending.dst_fits;
            lifetime_fits = sending.lifetime_fits;
            seq_fits = sending.seq_fits;
            time_fits = sending.time_fits;
            offset_fits = omega (arith, sending.few, h);
            total_fits = omega (arith, sending.few);
          })
          (omega arith) (encode_blocks-wire f)

  -- The callback on the next fragment.
  recv-wire :
      (rc : BpRecvCtx) (f : ℕ)
      → f * 512 < length payload
      → rc.reasm ≡ after (sent f)
      → bp_recv_block_cb rc (wire f) ≡ (
          if leb (length payload) (suc f * 512)
          then write_out (record rc { reasm = bp_reassembly_init }) payload
          else record rc { reasm = after (sent (suc f)) })
  unfolding bp_recv_block_cb received_bundle sent after
  recv-wire rc f h e =
      let key = (sent_fragment 0).primary in
      let parts = sent-IsPart (suc f) (omega arith) in
      let done : all_set (covered (sent (suc f))) (length payload)
          ≡ leb (length payload) (suc f * 512) =
        all_set-ext (covered (sent (suc f))) (λ j. ltb j (min (suc f * 512) (length payload)))
          (length payload) (covered-sent (suc f))
        ∙ all_set-below (min (suc f * 512) (length payload)) (length payload)
        ∙ ground arith in
      let result =
        reassembly_add-parts key payload (sent_fragment f) (sent f) parts
          (omega (arith, sending.few))
        ∙ ap some done in
      ap (received_bundle rc) (decode-wire f h)
      ∙ ap (λ r. after_fragment rc (bp_reassembly_add r (sent_fragment f))) e
      ∙ after_fragment-some rc (bp_reassembly_add (after (sent f)) (sent_fragment f))
          (leb (length payload) (suc f * 512)) result
      ∙ elim (Bool-cases (leb (length payload) (suc f * 512))) [
        | inl last ↦
            let (whole, stored) =
              reassembly_add_complete key payload (sent_fragment f) (sent f) parts
                (omega (arith, sending.few)) (done ∙ last) in
            rw (last, whole, stored) refl
        | inr more ↦ rw more refl
      ]

  pub send_fragments-delivers :
      (n f : ℕ) (rc : BpRecvCtx)
      → f * 512 < length payload
      → length payload ≤ (f + n) * 512
      → (f + n) * 512 < length payload + 512
      → rc.reasm ≡ after (sent f)
      → send_fragments reliable (encode_nth src dst payload lifetime_ms seq time) f n rc
        ≡ (write_out (record rc { reasm = bp_reassembly_init }) payload, true)
  unfolding send_fragments
  send_fragments-delivers zero f rc h enough few e = ground arith
  send_fragments-delivers (suc n) f rc h enough few e =
      rw (encode_nth-wire f h, recv-wire rc f h e)
        (elim (Bool-cases (leb (length payload) (suc f * 512))) [
          | inl last ↦ let none_left : n ≡ 0 = ground arith in rw (last, none_left) refl
          | inr more ↦ rw more (
              send_fragments-delivers n (suc f) (record rc { reasm = after (sent (suc f)) })
                (ground arith) (omega arith) (omega arith) refl)
        ])

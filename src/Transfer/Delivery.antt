-- ===== src/Transfer/Delivery.antt =====
-- kiss-interface/main.c on a link that delivers: what cmd_bp_send sends, the receiving callback
-- writes out.
use ion_dtn_terrestrial.Prelude.{
  ℕ, zero, suc, ◌+◌, ◌-◌, ◌*◌, ◌/◌, ◌%◌, ◌^◌, ◌≤◌, ◌<◌, true, false, ltb, le→ltb, lt→ltb,
  Option-cases, inl, inr, [], ◌∷◌, ◌++◌, length, append-nil, take, take-append, none, some, ◌≡◌,
  ◌∙◌, refl, sym, ap, arith,
}
use ion_dtn_terrestrial.Prelude.Bits.{Bytes}
use ion_dtn_terrestrial.Sdnv.{IsU64}
use ion_dtn_terrestrial.Buffer.{Encodes-eq-some}
use ion_dtn_terrestrial.Bp.{bp_fragment_count}
use ion_dtn_terrestrial.Bp.Decode.{bp_decode_bundle}
use ion_dtn_terrestrial.Bp.Encode.{bp_encode_bundle}
use ion_dtn_terrestrial.Bp.Wire.{bundle_wire, encode_blocks-Encodes}
use ion_dtn_terrestrial.Bp.RoundTrip.{whole_args, decode-encode_bundle}
use ion_dtn_terrestrial.Bp.Items.{IsEid}
use ion_dtn_terrestrial.Bp.Reassembly.{bp_reassembly_init}
use ion_dtn_terrestrial.Bp.Reassembly.Complete.{after}
use ion_dtn_terrestrial.Transfer.{
  max_fragments, uri_of, send_in_fragments, encode_nth, cmd_bp_send, Output, to_stdout, to_file,
  BpRecvCtx, write_out, received_bundle, bp_recv_block_cb,
}
use ion_dtn_terrestrial.Transfer.Sizes.{bundle_wire_le}
use ion_dtn_terrestrial.Transfer.Fragments.{reliable, IsSending, sent, send_fragments-delivers}

take-whole : (n : ℕ) (xs : Bytes) → length xs ≤ n → take n xs ≡ xs
take-whole zero [] h = refl
take-whole zero (x ∷ xs) h = ground arith
take-whole (suc n) [] h = refl
take-whole (suc n) (x ∷ xs) h = ap (◌∷◌ x) (take-whole n xs (omega arith))

uri_of-eid : (uri : Bytes) → IsEid uri → uri_of uri ≡ uri
uri_of-eid uri h =
    let len : length uri ≡ length h.ssp + 4 = rw h.is_dtn (omega arith) in
    take-whole 63 uri (omega (arith, len, h.fits))

-- One block that holds the whole bundle.
recv-bundle :
    (src dst payload : Bytes) (lifetime_ms seq now : ℕ) {bytes : Bytes} (rc : BpRecvCtx)
    → IsEid src
    → IsEid dst
    → IsU64 lifetime_ms
    → IsU64 seq
    → IsU64 now
    → bp_encode_bundle src dst payload lifetime_ms seq now 2048 ≡ some bytes
    → (0 < length bytes) × (bp_recv_block_cb rc bytes ≡ write_out rc payload)
unfolding bp_recv_block_cb received_bundle bp_encode_bundle
recv-bundle src dst payload lifetime_ms seq now {bytes} rc from to life seqs times e =
    let (same, fits) =
      Encodes-eq-some 2048 (encode_blocks-Encodes (whole_args src dst lifetime_ms seq now) payload)
        (omega arith) e in
    let decoded =
      decode-encode_bundle src dst payload lifetime_ms seq now 2048 [] from to life seqs times
        (omega arith) e in
    (
      rw same (omega arith),
      ap (λ block. received_bundle rc (bp_decode_bundle block)) (sym (append-nil bytes))
          ∙ ap (received_bundle rc) decoded
          ∙ ap (write_out rc) (take-append payload (0xFF ∷ [])),
    )

fragments-delivers :
    (src dst payload : Bytes) (lifetime_ms seq now later : ℕ) (rc : BpRecvCtx)
    → IsSending src dst payload lifetime_ms seq later
    → rc.reasm ≡ bp_reassembly_init
    → bp_encode_bundle src dst payload lifetime_ms seq now 2048 ≡ none
    → send_in_fragments reliable
        (encode_nth src dst payload lifetime_ms seq later)
        (bp_fragment_count (length payload) 512)
        rc
      ≡ (write_out rc payload, true)
unfolding send_in_fragments bp_fragment_count bp_encode_bundle after sent
fragments-delivers src dst payload lifetime_ms seq now later rc h fresh e =
    let p = whole_args src dst lifetime_ms seq now in
    let small = bundle_wire_le p payload h.src_fits h.dst_fits in
    let large : 2048 < length (bundle_wire p payload) =
      ground (arith, e, (encode_blocks-Encodes p payload).at 2048 (omega arith)) in
    let n = (length payload + 512 - 1) / 512 in
    let few : ltb max_fragments n ≡ false = le→ltb max_fragments n (omega (arith, h.few)) in
    rw few (
      send_fragments-delivers src dst payload lifetime_ms seq later h n 0 rc
        (omega (arith, small, large)) (omega arith) (omega arith) fresh
      ∙ ap (λ reasm. (write_out (record rc { reasm = reasm }) payload, true)) (sym fresh))

cmd_bp_send-writes :
    (src dst payload : Bytes) (lifetime_sec seq now later : ℕ) (rc : BpRecvCtx)
    → IsSending src dst payload (lifetime_sec * 1000 % 2 ^ 64) seq later
    → IsU64 now
    → rc.reasm ≡ bp_reassembly_init
    → cmd_bp_send reliable src dst payload lifetime_sec seq now later rc
      ≡ (write_out rc payload, true)
unfolding cmd_bp_send
cmd_bp_send-writes src dst payload lifetime_sec seq now later rc h times fresh =
    let ms = lifetime_sec * 1000 % 2 ^ 64 in
    rw (uri_of-eid src h.src_fits, uri_of-eid dst h.dst_fits)
      (elim (Option-cases (bp_encode_bundle src dst payload ms seq now 2048)) [
        | inl fails ↦
            rw fails (fragments-delivers src dst payload ms seq now later rc h fresh fails)
        | inr (bytes, e) ↦
            let (long, received) =
              recv-bundle src dst payload ms seq now rc h.src_fits h.dst_fits h.lifetime_fits
                h.seq_fits times e in
            rw (e, lt→ltb 0 (length bytes) long, received) refl
      ])

-- The payload has been added to what is printed, or is what the file holds now; one more bundle is
-- counted, and the receiver waits for the next one.
abbrev pub IsWritten : Output → Bytes → BpRecvCtx → BpRecvCtx → Type 0
IsWritten to_stdout payload before rc =
    (rc.on_stdout ≡ before.on_stdout ++ (payload ∷ []))
    × (rc.files ≡ before.files)
    × (rc.bundles_received ≡ (before.bundles_received + 1) % 2 ^ 32)
    × (rc.reasm ≡ bp_reassembly_init)
IsWritten (to_file fname) payload before rc =
    (rc.on_stdout ≡ before.on_stdout)
    × (rc.files ≡ (fname, payload) ∷ before.files)
    × (rc.bundles_received ≡ (before.bundles_received + 1) % 2 ^ 32)
    × (rc.reasm ≡ bp_reassembly_init)

write_out-IsWritten :
    (rc : BpRecvCtx) (payload : Bytes) (out : Output)
    → rc.output rc.bundles_received ≡ some out
    → rc.reasm ≡ bp_reassembly_init
    → IsWritten out payload rc (write_out rc payload)
unfolding write_out
write_out-IsWritten rc payload to_stdout opens fresh = rw opens (refl, refl, refl, fresh)
write_out-IsWritten rc payload (to_file fname) opens fresh = rw opens (refl, refl, refl, fresh)

-- Over a link that gives every block to the receiving callback once, and to a receiver that is not
-- in the middle of a bundle and whose output for the next bundle is stdout or a file that fopen
-- opens, cmd_bp_send succeeds and exactly the payload is written there, once, whether it goes as
-- one bundle or in up to 64 fragments, and the receiver is free for the next bundle; for "dtn:"
-- endpoints shorter than 64 bytes without a NUL, uint64 numbers and payloads of up to 32768 bytes.
-- This holds for every lifetime and time, since no code looks whether a bundle has expired.
pub cmd_bp_send-delivers :
    (src dst payload : Bytes) (lifetime_sec seq now later : ℕ) (rc : BpRecvCtx)
    → IsSending src dst payload (lifetime_sec * 1000 % 2 ^ 64) seq later
    → IsU64 now
    → rc.reasm ≡ bp_reassembly_init
    → {out : Output} → rc.output rc.bundles_received ≡ some out
    → (cmd_bp_send reliable src dst payload lifetime_sec seq now later rc
        ≡ (write_out rc payload, true))
      × IsWritten out payload rc (write_out rc payload)
cmd_bp_send-delivers src dst payload lifetime_sec seq now later rc h times fresh {out} opens = (
  cmd_bp_send-writes src dst payload lifetime_sec seq now later rc h times fresh,
  write_out-IsWritten rc payload out opens fresh,
)

-- ===== src/Demod/Line.antt =====
-- The detectors behind the NRZI code, and the two polarities.
use ion_dtn_terrestrial.Prelude.{
  ℕ, zero, suc, ◌-◌, true, false, ◌==◌, if◌then◌else◌, List, [], ◌∷◌, ◌++◌, map, append-nil,
  append_assoc, Option, none, some, ◌≡◌, refl, sym, ap, arith, All,
}
use ion_dtn_terrestrial.Prelude.Bits.{Bytes}
use ion_dtn_terrestrial.Nrzi.{Bitstream, toggle, encode_loop}
use ion_dtn_terrestrial.Nrzi.Line.{IsBit}
use ion_dtn_terrestrial.Demod.{
  Framer, detect, Detector, feed_detector, Received, Demod, callback, afsk_demod_feed_bit,
  afsk_demod_process,
}
use ion_dtn_terrestrial.Demod.Detection.{and_then, and_then-append, detect_all}

-- The frames that were received with this polarity.
unfoldable pub received_by : ℕ → List Received → List Bytes
received_by p [] = []
received_by p (r ∷ received) =
    if r.polarity == p then r.frame ∷ received_by p received else received_by p received

received_by-append :
    (p : ℕ) (xs ys : List Received)
    → received_by p (xs ++ ys) ≡ received_by p xs ++ received_by p ys
unfolding received_by
received_by-append p [] ys = refl
received_by-append p (r ∷ xs) ys = ground (arith, received_by-append p xs ys)

toggle_bits :
    (s : ℕ)
    → IsBit s
    → ((toggle s == s) ≡ false) × IsBit (toggle s) × (1 - toggle s ≡ toggle (1 - s))
toggle_bits zero h = (refl, omega arith, refl)
toggle_bits (suc zero) h = (refl, omega arith, refl)
toggle_bits (suc (suc s)) h = absurd (omega arith)

-- The code of the other polarity.
pub complement-encode_loop :
    (bits : Bitstream) (state : ℕ)
    → IsBit state
    → All IsBit bits
    → map (λ b. 1 - b) (encode_loop bits state) ≡ encode_loop bits (1 - state)
unfolding encode_loop
complement-encode_loop [] state h k = refl
complement-encode_loop (zero ∷ bits) state h (b, k) =
    let t = toggle_bits state h in cc (t.2, complement-encode_loop bits (toggle state) t.1 k)
complement-encode_loop (suc zero ∷ bits) state h (b, k) = cc (complement-encode_loop bits state h k)
complement-encode_loop (suc (suc n) ∷ bits) state h (b, k) = absurd (omega arith)

received_by-callback :
    (q p : ℕ) (o : Option Bytes)
    → received_by q (callback o p) ≡ (if p == q then and_then o [] else [])
unfolding received_by
received_by-callback q p none = ground arith
received_by-callback q p (some frame) = ground arith

module _ (behind : ℕ → ℕ) where
  -- The bits of the line one after the other, and the frames that they complete.
  unfoldable pub feed_all : Bitstream → Detector → Detector × List Bytes
  feed_all [] d = (d, [])
  feed_all (b ∷ bits) d =
      let (d1, frame) = feed_detector behind b d in
      let (d2, frames) = feed_all bits d1 in (d2, and_then frame frames)

  pub feed_all-encode_loop :
      (bits : Bitstream) (state : ℕ) (f : Framer)
      → IsBit state
      → All IsBit bits
      → (feed_all (encode_loop bits state) (record { framer = f; prev_nrzi = state })).1
        ≡ (detect_all behind bits f).1
  unfolding feed_all encode_loop detect_all feed_detector
  feed_all-encode_loop [] state f h k = refl
  feed_all-encode_loop (zero ∷ bits) state f h (b, k) =
      let t = toggle_bits state h in
      rw (t.0) (
        ap (and_then (detect behind 0 f).1)
          (feed_all-encode_loop bits (toggle state) (detect behind 0 f).0 t.1 k))
  feed_all-encode_loop (suc zero ∷ bits) state f h (b, k) =
      let same : (state == state) ≡ true = ground arith in
      rw same (
        ap (and_then (detect behind 1 f).1)
          (feed_all-encode_loop bits state (detect behind 1 f).0 h k))
  feed_all-encode_loop (suc (suc n) ∷ bits) state f h (b, k) = absurd (omega arith)

  -- What one bit of the line does to the two detectors and to the frames of each polarity.
  record Fed (b : ℕ) (before after : Demod) : Type 0 where
    pub normal : after.normal ≡ (feed_detector behind b before.normal).0
    pub inverted : after.inverted ≡ (feed_detector behind (1 - b) before.inverted).0
    pub by_normal :
        received_by 0 after.received
        ≡ received_by 0 before.received ++ and_then (feed_detector behind b before.normal).1 []
    pub by_inverted :
        received_by 1 after.received
        ≡ received_by 1 before.received
          ++ and_then (feed_detector behind (1 - b) before.inverted).1 []

  abbrev both : ℕ → Demod → Demod
  both b d = afsk_demod_feed_bit behind (1 - b) 1 (afsk_demod_feed_bit behind b 0 d)

  both-Fed : (b : ℕ) (d : Demod) → Fed b d (both b d)
  unfolding afsk_demod_feed_bit
  both-Fed b d =
      let frame0 = (feed_detector behind b d.normal).1 in
      let frame1 = (feed_detector behind (1 - b) d.inverted).1 in
      record {
        normal = refl;
        inverted = refl;
        by_normal = cc (
          received_by-append 0 (d.received ++ callback frame0 0) (callback frame1 1),
          received_by-append 0 d.received (callback frame0 0),
          received_by-callback 0 0 frame0,
          received_by-callback 0 1 frame1,
          append-nil (received_by 0 d.received ++ and_then frame0 []),
        );
        by_inverted = cc (
          received_by-append 1 (d.received ++ callback frame0 0) (callback frame1 1),
          received_by-append 1 d.received (callback frame0 0),
          received_by-callback 1 0 frame0,
          received_by-callback 1 1 frame1,
          append-nil (received_by 1 d.received),
        );
      }

  -- What the bits of the line make of the frames of each polarity.
  pub process-received :
      (bits : Bitstream) (d : Demod)
      → (received_by 0 (afsk_demod_process behind bits d).received
          ≡ received_by 0 d.received ++ (feed_all bits d.normal).1)
        × (received_by 1 (afsk_demod_process behind bits d).received
            ≡ received_by 1 d.received ++ (feed_all (map (λ b. 1 - b) bits) d.inverted).1)
  unfolding afsk_demod_process feed_all
  process-received [] d = (sym (append-nil _), sym (append-nil _))
  process-received (b ∷ bits) d =
      let fed = both-Fed b d in
      let (ih0, ih1) = process-received bits (both b d) in
      let frame0 = (feed_detector behind b d.normal).1 in
      let frame1 = (feed_detector behind (1 - b) d.inverted).1 in
      let rest0 = (feed_all bits (feed_detector behind b d.normal).0).1 in
      let rest1 =
        (feed_all (map (λ b. 1 - b) bits) (feed_detector behind (1 - b) d.inverted).0).1 in
      (
        cc (
          ih0,
          fed.normal,
          fed.by_normal,
          append_assoc (received_by 0 d.received) (and_then frame0 []) rest0,
          and_then-append frame0 [] rest0,
        ),
        cc (
          ih1,
          fed.inverted,
          fed.by_inverted,
          append_assoc (received_by 1 d.received) (and_then frame1 []) rest1,
          and_then-append frame1 [] rest1,
        ),
      )

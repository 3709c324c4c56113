-- ===== src/Demod/Detection.antt =====
-- Flags and the bits between them in the frame detector.
use ion_dtn_terrestrial.Prelude.{
  ℕ, zero, suc, ◌+◌, ◌≤◌, ◌<◌, ◌==◌, lt→ltb, if◌then◌else◌, List, [], ◌∷◌, ◌++◌, length,
  length-append, append-nil, append_assoc, Option, none, some, ◌≡◌, refl, sym, arith, All,
}
use ion_dtn_terrestrial.Prelude.Bits.{Bytes}
use ion_dtn_terrestrial.Nrzi.{Bitstream, flag_bits, flags}
use ion_dtn_terrestrial.Nrzi.Stuffing.{run_after, AtMostFive, run_after-AtMostFive}
use ion_dtn_terrestrial.Nrzi.Line.{IsBit}
use ion_dtn_terrestrial.Demod.{
  sync, in_frame, Framer, flag, max_frame_bits, shift_in, accumulate, close_frame, check_frame,
  detect_in, detect, idle_detector,
}
use ion_dtn_terrestrial.Demod.Shift.{EndsIn, Shifted, shift_in-Shifted, shift_in-flag}

-- The frame of one bit before those of the bits that follow.
abbrev pub and_then : Option Bytes → List Bytes → List Bytes
and_then none frames = frames
and_then (some frame) frames = frame ∷ frames

-- The bits one after the other, and the frames that they complete.
unfoldable pub detect_all : (ℕ → ℕ) → Bitstream → Framer → Framer × List Bytes
detect_all behind [] f = (f, [])
detect_all behind (b ∷ bits) f =
    let (f1, frame) = detect behind b f in
    let (f2, frames) = detect_all behind bits f1 in (f2, and_then frame frames)

abbrev pub within_frame : Bitstream → ℕ → Framer
within_frame bits reg = record { det_state = in_frame; frame_bits = bits; shift_reg = reg }

-- Between frames, just behind a flag.
abbrev pub ready : Framer
ready = record { det_state = sync; frame_bits = []; shift_reg = 0x7E }

-- The first seven bits of a flag.
abbrev pub flag_start : Bitstream
flag_start = 0 ∷ 1 ∷ 1 ∷ 1 ∷ 1 ∷ 1 ∷ 1 ∷ []

pub and_then-append :
    (o : Option Bytes) (xs ys : List Bytes) → and_then o xs ++ ys ≡ and_then o (xs ++ ys)
and_then-append none xs ys = refl
and_then-append (some x) xs ys = refl

module _ (behind : ℕ → ℕ) where
  detect_all-append :
      (xs ys : Bitstream) (f : Framer)
      → detect_all behind (xs ++ ys) f ≡ (
        (detect_all behind ys (detect_all behind xs f).0).0,
        (detect_all behind xs f).1 ++ (detect_all behind ys (detect_all behind xs f).0).1,
      )
  unfolding detect_all
  detect_all-append [] ys f = refl
  detect_all-append (b ∷ xs) ys f =
      let (g, frame) = detect behind b f in
      let ih = detect_all-append xs ys g in
      cc (
        ih,
        and_then-append frame (detect_all behind xs g).1
            (detect_all behind ys (detect_all behind xs g).0).1,
      )

  -- Two streams in a row.
  pub detect_two :
      (xs ys : Bitstream) (f f1 f2 : Framer) (out1 out2 : List Bytes)
      → detect_all behind xs f ≡ (f1, out1)
      → detect_all behind ys f1 ≡ (f2, out2)
      → detect_all behind (xs ++ ys) f ≡ (f2, out1 ++ out2)
  detect_two xs ys f f1 f2 out1 out2 h k = cc (h, k, detect_all-append xs ys f)

  step-within_frame :
      (acc : Bitstream) (reg b run : ℕ)
      → Shifted run b (shift_in reg b)
      → length acc < max_frame_bits
      → detect behind b (within_frame acc reg)
        ≡ (within_frame (acc ++ (b ∷ [])) (shift_in reg b), none)
  unfolding detect detect_in accumulate
  step-within_frame acc reg b run s room =
      rw (s.no_flag, s.no_seven, lt→ltb (length acc) max_frame_bits room) refl

  step-ready :
      (b : ℕ) → IsBit b → detect behind b ready ≡ (within_frame (b ∷ []) (shift_in flag b), none)
  unfolding detect detect_in
  step-ready b h =
      let s = shift_in-Shifted 0 flag b h (omega arith) (omega arith) in rw s.no_flag refl

  step-flag :
      (acc : Bitstream) (reg : ℕ)
      → EndsIn 6 reg
      → detect behind 0 (within_frame acc reg) ≡ (ready, close_frame behind acc)
  unfolding detect detect_in
  step-flag acc reg e = rw (shift_in-flag reg e) refl

  flag_when_ready : detect_all behind flag_bits ready ≡ (ready, [])
  unfolding detect_all detect detect_in accumulate close_frame check_frame
  flag_when_ready = refl

  flag_when_idle : detect_all behind flag_bits idle_detector.framer ≡ (ready, [])
  unfolding detect_all detect detect_in
  flag_when_idle = refl

  pub flags_when_ready : (n : ℕ) → detect_all behind (flags n) ready ≡ (ready, [])
  unfolding flags detect_all
  flags_when_ready zero = refl
  flags_when_ready (suc n) =
      detect_two flag_bits (flags n) ready ready ready [] [] flag_when_ready (flags_when_ready n)

  pub flags_when_idle :
      (n : ℕ) → detect_all behind (flags (suc n)) idle_detector.framer ≡ (ready, [])
  unfolding flags
  flags_when_idle n =
      detect_two flag_bits (flags n) idle_detector.framer ready ready [] [] flag_when_idle
        (flags_when_ready n)

  -- Bits without six ones in a row are collected.
  pub record Collected (bits acc : Bitstream) (run reg : ℕ) : Type 0 where
    pub new_reg : ℕ
    pub ends : EndsIn (run_after run bits) new_reg
    pub detected :
        detect_all behind bits (within_frame acc reg) ≡ (within_frame (acc ++ bits) new_reg, [])

  collect :
      (bits acc : Bitstream) (run reg : ℕ)
      → run ≤ 5
      → EndsIn run reg
      → All IsBit bits
      → AtMostFive run bits
      → length acc + length bits ≤ max_frame_bits
      → Collected bits acc run reg
  unfolding detect_all
  collect [] acc run reg k e h m room = record {
    new_reg = reg;
    ends = e;
    detected = rw (append-nil acc) refl;
  }
  collect (b ∷ bits) acc run reg k e (h, hs) (m, ms) room =
      let s = shift_in-Shifted run reg b h k e in
      let rest =
        collect bits (acc ++ (b ∷ [])) (if b == 1 then run + 1 else 0) (shift_in reg b) m s.ends hs
          ms (omega (arith, length-append acc (b ∷ []), room)) in
      record {
        new_reg = rest.new_reg;
        ends = rest.ends;
        detected =
            rw
              (
                step-within_frame acc reg b run s (omega (arith, room)),
                rest.detected,
                append_assoc acc (b ∷ []) bits,
              )
              refl;
      }

  last_two :
      (acc : Bitstream) (reg : ℕ)
      → EndsIn 5 reg
      → length acc < max_frame_bits
      → detect_all behind (1 ∷ 0 ∷ []) (within_frame acc reg)
        ≡ (ready, and_then (close_frame behind (acc ++ (1 ∷ []))) [])
  unfolding detect_all
  last_two acc reg e room =
      let s = shift_in-Shifted 5 reg 1 (omega arith) (omega arith) e in
      rw (step-within_frame acc reg 1 5 s room, step-flag (acc ++ (1 ∷ [])) (shift_in reg 1) s.ends)
        refl

  -- A closing flag behind collected bits: the frame is closed with the first seven bits of the flag.
  closing_flag :
      (acc : Bitstream) (run reg : ℕ)
      → run ≤ 5
      → EndsIn run reg
      → length acc + 7 ≤ max_frame_bits
      → detect_all behind flag_bits (within_frame acc reg)
        ≡ (ready, and_then (close_frame behind (acc ++ flag_start)) [])
  closing_flag acc run reg k e room =
      let six = 0 ∷ 1 ∷ 1 ∷ 1 ∷ 1 ∷ 1 ∷ [] in
      let c = collect six acc run reg k e (omega arith) (omega arith) (omega arith) in
      let last =
        last_two (acc ++ six) c.new_reg c.ends (omega (arith, length-append acc six, room)) in
      let both =
        detect_two six (1 ∷ 0 ∷ []) (within_frame acc reg) (within_frame (acc ++ six) c.new_reg)
          ready [] _ c.detected last in
      rw (sym (append_assoc acc six (1 ∷ []))) both

  -- A stream of bits without six ones in a row, from one flag to the next.
  pub between_flags :
      (b : ℕ) (bits : Bitstream)
      → All IsBit (b ∷ bits)
      → AtMostFive 0 (b ∷ bits)
      → length (b ∷ bits) + 7 ≤ max_frame_bits
      → detect_all behind ((b ∷ bits) ++ flag_bits) ready
        ≡ (ready, and_then (close_frame behind ((b ∷ bits) ++ flag_start)) [])
  unfolding detect_all
  between_flags b bits (h, hs) (m, ms) room =
      let s = shift_in-Shifted 0 flag b h (omega arith) (omega arith) in
      let c = collect bits (b ∷ []) _ (shift_in flag b) m s.ends hs ms (omega (arith, room)) in
      let run = run_after (if b == 1 then 0 + 1 else 0) bits in
      let closed =
        closing_flag (b ∷ bits) run c.new_reg (run_after-AtMostFive bits _ m ms) c.ends room in
      rw (step-ready b h) (
        detect_two bits flag_bits (within_frame (b ∷ []) (shift_in flag b)) _ ready [] _ c.detected
          closed)

  -- The same of any stream that is not empty.
  pub content_between :
      (bits : Bitstream)
      → 0 < length bits
      → All IsBit bits
      → AtMostFive 0 bits
      → length bits + 7 ≤ max_frame_bits
      → detect_all behind (bits ++ flag_bits) ready
        ≡ (ready, and_then (close_frame behind (bits ++ flag_start)) [])
  content_between [] some_bit h m room = absurd (omega arith)
  content_between (b ∷ bits) some_bit h m room = between_flags b bits h m room

-- ===== src/Demod/RoundTrip.antt =====
-- The modem of kiss-interface/nrzi.c and afsk_demod.c at the level of bits: what is sent is received.
use ion_dtn_terrestrial.Prelude.{
  ℕ, zero, suc, ◌≤◌, List, [], ◌∷◌, ◌++◌, map, length, append_assoc, ◌≡◌, ◌∙◌, refl, ap, subst,
  arith, le→ltb, All, All-append,
}
use ion_dtn_terrestrial.Prelude.Bits.{Bytes}
use ion_dtn_terrestrial.Nrzi.{
  Bitstream, bits_of, with_fcs, fixed_frame, flag_bits, flags, encode_loop, nrzi_encode,
}
use ion_dtn_terrestrial.Nrzi.Line.{IsBit}
use ion_dtn_terrestrial.Nrzi.Bitstream.{content_bits, wire}
use ion_dtn_terrestrial.Demod.{
  Framer, detect, detect_in, feed_detector, idle_detector, afsk_demod_init, afsk_demod_process,
}
use ion_dtn_terrestrial.Demod.Detection.{and_then, detect_all, ready, detect_two, flags_when_ready}
use ion_dtn_terrestrial.Demod.Packing.{bits_of-IsBit}
use ion_dtn_terrestrial.Demod.Line.{
  received_by, feed_all, feed_all-encode_loop, complement-encode_loop, process-received,
}
use ion_dtn_terrestrial.Demod.Frames.{
  IsFrame, stuffed-IsBit, after_preamble, wire_when_ready, wire_when_idle,
}

-- The streams of the frames, one after the other.
abbrev pub stream : List Bytes → Bitstream
stream [] = []
stream (frame ∷ frames) = wire frame ++ stream frames

flags-IsBit : (n : ℕ) → All IsBit (flags n)
unfolding flags
flags-IsBit zero = tt
flags-IsBit (suc n) = All-append IsBit flag_bits (flags n) (omega arith) (flags-IsBit n)

wire-IsBit : (frame : Bytes) → All IsBit (wire frame)
wire-IsBit frame =
    let all = with_fcs (fixed_frame frame) in
    All-append IsBit (flags 80) (content_bits frame ++ flags 3) (flags-IsBit 80) (
      All-append IsBit (content_bits frame) (flags 3)
        (stuffed-IsBit (bits_of all) 0 (bits_of-IsBit all)) (flags-IsBit 3))

stream-IsBit : (frames : List Bytes) → All IsBit (stream frames)
stream-IsBit [] = tt
stream-IsBit (frame ∷ frames) =
    All-append IsBit (wire frame) (stream frames) (wire-IsBit frame) (stream-IsBit frames)

-- The rest of a flag behind its first bit.
abbrev flag_rest : Bitstream
flag_rest = 1 ∷ 1 ∷ 1 ∷ 1 ∷ 1 ∷ 1 ∷ 0 ∷ []

first_flag :
    (n : ℕ) (rest : Bitstream) → flags (suc n) ++ rest ≡ 0 ∷ (flag_rest ++ (flags n ++ rest))
unfolding flags
first_flag n rest = refl

module _ (behind : ℕ → ℕ) where
  stream_when_ready :
      (frames : List Bytes)
      → All IsFrame frames
      → detect_all behind (stream frames) ready ≡ (ready, map fixed_frame frames)
  unfolding detect_all
  stream_when_ready [] h = refl
  stream_when_ready (frame ∷ frames) (h, hs) =
      detect_two behind (wire frame) (stream frames) ready ready ready (fixed_frame frame ∷ [])
        (map fixed_frame frames) (wire_when_ready behind frame h) (stream_when_ready frames hs)

  stream_when_idle :
      (frame : Bytes) (frames : List Bytes)
      → All IsFrame (frame ∷ frames)
      → detect_all behind (stream (frame ∷ frames)) idle_detector.framer
        ≡ (ready, map fixed_frame (frame ∷ frames))
  stream_when_idle frame frames (h, hs) =
      detect_two behind (wire frame) (stream frames) idle_detector.framer ready ready
        (fixed_frame frame ∷ []) (map fixed_frame frames) (wire_when_idle behind frame h)
        (stream_when_ready frames hs)

  -- With its first bit inverted, the first flag is lost and the second is found.
  second_flag : detect_all behind (1 ∷ (flag_rest ++ flag_bits)) idle_detector.framer ≡ (ready, [])
  unfolding detect_all detect detect_in
  second_flag = refl

  -- A stream of frames behind its first flag.
  abbrev behind_flag : Bytes → List Bytes → Bitstream
  behind_flag frame frames = flags 78 ++ ((content_bits frame ++ flags 3) ++ stream frames)

  behind_flag_when_ready :
      (frame : Bytes) (frames : List Bytes)
      → All IsFrame (frame ∷ frames)
      → detect_all behind (behind_flag frame frames) ready
        ≡ (ready, map fixed_frame (frame ∷ frames))
  behind_flag_when_ready frame frames (h, hs) =
      detect_two behind (flags 78) ((content_bits frame ++ flags 3) ++ stream frames) ready ready
        ready [] (map fixed_frame (frame ∷ frames)) (flags_when_ready behind 78)
        (detect_two behind (content_bits frame ++ flags 3) (stream frames) ready ready ready
          (fixed_frame frame ∷ []) (map fixed_frame frames) (after_preamble behind frame h)
          (stream_when_ready frames hs))

  stream_shape :
      (frame : Bytes) (frames : List Bytes)
      → stream (frame ∷ frames) ≡ 0 ∷ (flag_rest ++ (flag_bits ++ behind_flag frame frames))
  stream_shape frame frames =
      let rest = (content_bits frame ++ flags 3) ++ stream frames in
      append_assoc (flags 80) (content_bits frame ++ flags 3) (stream frames)
      ∙ first_flag 79 rest
      ∙ ap (λ bits. 0 ∷ (flag_rest ++ bits)) (first_flag 78 rest)

  -- The detector of the other polarity takes the first bit for a one.
  first_bit_wrong :
      (bits : Bitstream) (f : Framer)
      → All IsBit bits
      → (feed_all behind (encode_loop (0 ∷ bits) 1) (record { framer = f; prev_nrzi = 0 })).1
        ≡ (detect_all behind (1 ∷ bits) f).1
  unfolding feed_all encode_loop detect_all feed_detector
  first_bit_wrong bits f h =
      ap (and_then (detect behind 1 f).1)
        (feed_all-encode_loop behind bits 0 (detect behind 1 f).0 (omega arith) h)

  inverted_frames :
      (frame : Bytes) (frames : List Bytes)
      → All IsFrame (frame ∷ frames)
      → (feed_all behind (encode_loop (stream (frame ∷ frames)) 1) idle_detector).1
        ≡ map fixed_frame (frame ∷ frames)
  inverted_frames frame frames h =
      let rest = flag_rest ++ (flag_bits ++ behind_flag frame frames) in
      let bits : All IsBit (0 ∷ rest) =
        subst (All IsBit) (stream_shape frame frames) (stream-IsBit (frame ∷ frames)) in
      let found =
        detect_two behind (1 ∷ (flag_rest ++ flag_bits)) (behind_flag frame frames)
          idle_detector.framer ready ready [] (map fixed_frame (frame ∷ frames)) second_flag
          (behind_flag_when_ready frame frames h) in
      rw (stream_shape frame frames) (
        first_bit_wrong rest idle_detector.framer bits.1
        ∙ ap (λ (r : Framer × List Bytes). r.1) found)

  normal_frames :
      (frame : Bytes) (frames : List Bytes)
      → All IsFrame (frame ∷ frames)
      → (feed_all behind (encode_loop (stream (frame ∷ frames)) 0) idle_detector).1
        ≡ map fixed_frame (frame ∷ frames)
  normal_frames frame frames h =
      feed_all-encode_loop behind (stream (frame ∷ frames)) 0 idle_detector.framer (omega arith)
        (stream-IsBit (frame ∷ frames))
      ∙ ap (λ (r : Framer × List Bytes). r.1) (stream_when_idle frame frames h)

-- The streams of one or more frames of 16 to 328 bytes, sent one after the other in one NRZI stream, make
-- a demodulator that starts anew report exactly these frames, in order, with the reserved bits of
-- their SSIDs set; and it reports each of them twice, with either polarity. Whatever stands behind the
-- array of the frame makes no difference.
pub process-stream :
    (behind : ℕ → ℕ) (frame : Bytes) (frames : List Bytes) (out_size : ℕ)
    → All IsFrame (frame ∷ frames)
    → length (stream (frame ∷ frames)) ≤ out_size
    → (received_by 0
          (afsk_demod_process behind
            (nrzi_encode (stream (frame ∷ frames)) out_size 0)
            afsk_demod_init).received
        ≡ map fixed_frame (frame ∷ frames))
      × (received_by 1
            (afsk_demod_process behind
              (nrzi_encode (stream (frame ∷ frames)) out_size 0)
              afsk_demod_init).received
          ≡ map fixed_frame (frame ∷ frames))
unfolding nrzi_encode received_by
process-stream behind frame frames out_size h room =
    let sent = stream (frame ∷ frames) in
    let fits = le→ltb out_size (length sent) room in
    let both = process-received behind (encode_loop sent 0) afsk_demod_init in
    let other = complement-encode_loop sent 0 (omega arith) (stream-IsBit (frame ∷ frames)) in
    rw (fits) (
      both.0 ∙ normal_frames behind frame frames h,
      both.1 ∙ rw other (inverted_frames behind frame frames h),
    )

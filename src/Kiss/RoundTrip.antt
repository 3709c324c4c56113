-- ===== src/Kiss/RoundTrip.antt =====
-- What the decoder makes of encoded frames, from every state that it can be in.
use ion_dtn_terrestrial.Prelude.{
  ℕ, ◌+◌, ◌≤◌, ◌<◌, ◌==◌, ltb, ◌&&◌, ◌||◌, true, false, if◌then◌else◌, List, [], ◌∷◌, ◌++◌, map,
  length, length-append, append-nil, append_assoc, ◌≡◌, ◌∙◌, inl, inr, ap, sym, refl, Bool, arith,
  Bool-cases, some,
}
use ion_dtn_terrestrial.Prelude.Bits.{Bytes}
use ion_dtn_terrestrial.Kiss.{
  Decoder, Outcome, more, frame, error, len, ready, fend, max_payload, noted, kiss_decoder_init,
  kiss_encode, kiss_decoder_feed, feed_all,
}
use ion_dtn_terrestrial.Kiss.Encode.{kiss_encode-eq-some, escaped, stuffed, data_frame}

-- Inside a frame, with `buf` stored so far.
abbrev inside : Bytes → Decoder
inside buf = record { buf = buf; in_frame = true; escape = false }

feed_all-escaped :
    (b : ℕ) (buf rest : Bytes) (out_size : ℕ)
    → length buf ≤ max_payload
    → feed_all (inside buf) (escaped b ++ rest) out_size
      ≡ feed_all (inside (buf ++ (b ∷ []))) rest out_size
unfolding feed_all escaped
feed_all-escaped b buf rest out_size h = ground arith

feed_all-stuffed :
    (payload buf rest : Bytes) (out_size : ℕ)
    → length buf + length payload ≤ max_payload + 1
    → feed_all (inside buf) (stuffed payload ++ rest) out_size
      ≡ feed_all (inside (buf ++ payload)) rest out_size
unfolding stuffed
feed_all-stuffed [] buf rest out_size h = rw append-nil
feed_all-stuffed (b ∷ payload) buf rest out_size h =
    ap (λ (bytes : Bytes). feed_all (inside buf) bytes out_size)
      (append_assoc (escaped b) (stuffed payload) rest)
    ∙ feed_all-escaped b buf (stuffed payload ++ rest) out_size (omega arith)
    ∙ feed_all-stuffed payload (buf ++ (b ∷ [])) rest out_size
        (omega (arith, length-append buf (b ∷ [])))
    ∙ rw append_assoc

-- Outside a frame everything up to the next FEND is dropped.
skip-escaped :
    (b : ℕ) (rest : Bytes) (out_size : ℕ)
    → feed_all kiss_decoder_init (escaped b ++ rest) out_size
      ≡ feed_all kiss_decoder_init rest out_size
unfolding feed_all escaped
skip-escaped b rest out_size = ground arith

skip-stuffed :
    (payload : Bytes) (out_size : ℕ)
    → feed_all kiss_decoder_init (stuffed payload ++ (fend ∷ [])) out_size ≡ (ready, [])
unfolding stuffed
skip-stuffed [] out_size = unfold feed_all in refl
skip-stuffed (b ∷ payload) out_size =
    rw append_assoc (skip-escaped b _ out_size ∙ skip-stuffed payload out_size)

-- One byte too many empties the buffer and leaves the frame.
overflow-escaped :
    (b : ℕ) (buf rest : Bytes) (out_size : ℕ)
    → length buf ≡ max_payload + 1
    → feed_all (inside buf) (escaped b ++ rest) out_size ≡ (
      (feed_all kiss_decoder_init rest out_size).0,
      error ∷ (feed_all kiss_decoder_init rest out_size).1,
    )
unfolding feed_all escaped
overflow-escaped b buf rest out_size h = ground arith

overflow-stuffed :
    (payload buf : Bytes) (out_size : ℕ)
    → length buf ≤ max_payload + 1
    → max_payload + 1 < length buf + length payload
    → feed_all (inside buf) (stuffed payload ++ (fend ∷ [])) out_size ≡ (ready, error ∷ [])
unfolding stuffed
overflow-stuffed [] buf out_size h k = absurd (omega arith)
overflow-stuffed (b ∷ payload) buf out_size h k =
    rw append_assoc (elim (Bool-cases (ltb (length buf) (max_payload + 1))) [
      | inl room ↦
          feed_all-escaped b buf (stuffed payload ++ (fend ∷ [])) out_size (ground arith)
          ∙ overflow-stuffed payload (buf ++ (b ∷ [])) out_size
              (ground (arith, length-append buf (b ∷ [])))
              (ground (arith, length-append buf (b ∷ [])))
      | inr full ↦
          overflow-escaped b buf (stuffed payload ++ (fend ∷ [])) out_size (ground arith)
          ∙ rw (skip-stuffed payload out_size)
    ])

-- What the decoder reports of a frame: its payload, or an error if the payload is longer than
-- KISS_MAX_PAYLOAD or than the room in `out`.
abbrev pub reported : Bytes → ℕ → Outcome
reported payload out_size =
    if ltb max_payload (length payload) || ltb out_size (length payload)
    then error
    else frame payload

close :
    (payload : Bytes) (out_size : ℕ)
    → length payload ≤ max_payload
    → feed_all (inside (0x00 ∷ payload)) (fend ∷ []) out_size
      ≡ (ready, reported payload out_size ∷ [])
unfolding feed_all
close payload out_size h = ground arith

-- The part of a frame behind its first byte, from any state that waits for a command byte.
feed_all-body :
    (payload : Bytes) (pending : Bool) (out_size : ℕ)
    → feed_all
        (record { buf = []; in_frame = true; escape = pending })
        (0x00 ∷ (stuffed payload ++ (fend ∷ [])))
        out_size
      ≡ (ready, reported payload out_size ∷ [])
feed_all-body payload pending out_size =
    command_byte ∙ elim (Bool-cases (ltb max_payload (length payload))) [
      | inl long ↦
          overflow-stuffed payload (0x00 ∷ []) out_size (omega arith) (ground arith) ∙ rw long
      | inr short ↦
          feed_all-stuffed payload (0x00 ∷ []) (fend ∷ []) out_size (ground arith)
          ∙ close payload out_size (ground arith)
    ]
  where
    command_byte :
        feed_all
          (record { buf = []; in_frame = true; escape = pending })
          (0x00 ∷ (stuffed payload ++ (fend ∷ [])))
          out_size
        ≡ feed_all (inside (0x00 ∷ [])) (stuffed payload ++ (fend ∷ [])) out_size
    command_byte = unfold feed_all in ground arith

-- After a FEND the decoder waits for a command byte, whatever went before.
fend_waits :
    (dec : Decoder) (out_size : ℕ)
    → (pending : Bool) × ((kiss_decoder_feed dec fend out_size).0
        ≡ record { buf = []; in_frame = true; escape = pending })
unfolding kiss_decoder_feed
fend_waits dec out_size = (dec.escape && dec.in_frame && (len dec == 0), ground arith)

abbrev with_first : Outcome → Decoder × List Outcome → Decoder × List Outcome
with_first outcome r = (r.0, noted outcome r.1)

feed_all-cons :
    (dec : Decoder) (byte : ℕ) (bytes : Bytes) (out_size : ℕ)
    → feed_all dec (byte ∷ bytes) out_size
      ≡ with_first
          (kiss_decoder_feed dec byte out_size).1
          (feed_all (kiss_decoder_feed dec byte out_size).0 bytes out_size)
unfolding feed_all
feed_all-cons dec byte bytes out_size = refl

feed_all-data_frame :
    (payload : Bytes) (dec : Decoder) (out_size : ℕ)
    → feed_all dec (data_frame payload) out_size
      ≡ (ready, noted (kiss_decoder_feed dec fend out_size).1 (reported payload out_size ∷ []))
unfolding data_frame
feed_all-data_frame payload dec out_size =
    let (pending, waits) = fend_waits dec out_size in
    let body = 0x00 ∷ (stuffed payload ++ (fend ∷ [])) in
    feed_all-cons dec fend body out_size
    ∙ ap
        (λ (d : Decoder).
          with_first (kiss_decoder_feed dec fend out_size).1 (feed_all d body out_size))
        waits
    ∙ ap (with_first (kiss_decoder_feed dec fend out_size).1)
        (feed_all-body payload pending out_size)

-- Whatever state the decoder is in, feeding it an encoded frame ends in the state that is ready
-- for the next frame, and reports, after what the leading FEND completes, this payload; or an
-- error, if the payload is longer than KISS_MAX_PAYLOAD or than the room in `out`.
feed_all-kiss_encode :
    (payload : Bytes) (size : ℕ) (dec : Decoder) (out_size : ℕ) {bytes : Bytes}
    → kiss_encode payload size ≡ some bytes
    → feed_all dec bytes out_size
      ≡ (ready, noted (kiss_decoder_feed dec fend out_size).1 (reported payload out_size ∷ []))
feed_all-kiss_encode payload size dec out_size e =
    ap (λ (b : Bytes). feed_all dec b out_size) (kiss_encode-eq-some payload size e).0
    ∙ feed_all-data_frame payload dec out_size

-- Frames encoded one by one and written one after the other.
pub data Sent (size : ℕ) : List Bytes → Bytes → Type 0 where
  nothing : Sent size [] []
  then_frame :
      {payload bytes : Bytes} {payloads : List Bytes} {rest : Bytes}
      → kiss_encode payload size ≡ some bytes
      → Sent size payloads rest
      → Sent size (payload ∷ payloads) (bytes ++ rest)

-- The decoder, and what it has reported, after `bytes` more.
abbrev pub resume : Decoder × List Outcome → Bytes → ℕ → Decoder × List Outcome
resume r bytes out_size = ((feed_all r.0 bytes out_size).0, r.1 ++ (feed_all r.0 bytes out_size).1)

resume-with_first :
    (outcome : Outcome) (r : Decoder × List Outcome) (bytes : Bytes) (out_size : ℕ)
    → with_first outcome (resume r bytes out_size) ≡ resume (with_first outcome r) bytes out_size
resume-with_first more r bytes out_size = refl
resume-with_first (frame payload) r bytes out_size = refl
resume-with_first error r bytes out_size = refl

pub feed_all-append :
    (xs ys : Bytes) (dec : Decoder) (out_size : ℕ)
    → feed_all dec (xs ++ ys) out_size ≡ resume (feed_all dec xs out_size) ys out_size
feed_all-append [] ys dec out_size = unfold feed_all in refl
feed_all-append (x ∷ xs) ys dec out_size =
    let first = with_first (kiss_decoder_feed dec x out_size).1 in
    let next = (kiss_decoder_feed dec x out_size).0 in
    feed_all-cons dec x (xs ++ ys) out_size
    ∙ ap first (feed_all-append xs ys next out_size)
    ∙ resume-with_first (kiss_decoder_feed dec x out_size).1 (feed_all next xs out_size) ys out_size
    ∙ ap (λ (r : Decoder × List Outcome). resume r ys out_size)
        (sym (feed_all-cons dec x xs out_size))

ready_for_more : (out_size : ℕ) → (kiss_decoder_feed ready fend out_size).1 ≡ more
unfolding kiss_decoder_feed
ready_for_more out_size = refl

pub alone :
    (payload : Bytes) (size out_size : ℕ) {bytes : Bytes}
    → kiss_encode payload size ≡ some bytes
    → feed_all ready bytes out_size ≡ (ready, reported payload out_size ∷ [])
alone payload size out_size e =
    feed_all-kiss_encode payload size ready out_size e
    ∙ ap (λ (o : Outcome). (ready, noted o (reported payload out_size ∷ [])))
        (ready_for_more out_size)

-- A stream of encoded frames is reported frame by frame, in order, and each frame on its own: one
-- that is too long yields an error and does not disturb the next.
pub feed_all-Sent :
    {size : ℕ} {payloads : List Bytes} {bytes : Bytes} (out_size : ℕ)
    → Sent size payloads bytes
    → feed_all ready bytes out_size ≡ (ready, map (λ payload. reported payload out_size) payloads)
feed_all-Sent out_size nothing = unfold feed_all in refl
feed_all-Sent {size} out_size (then_frame {payload} {bytes} {payloads} {rest} e s) =
    feed_all-append bytes rest ready out_size
    ∙ ap (λ (r : Decoder × List Outcome). resume r rest out_size) (alone payload size out_size e)
    ∙ ap (λ (r : Decoder × List Outcome). (r.0, reported payload out_size ∷ r.1))
        (feed_all-Sent out_size s)

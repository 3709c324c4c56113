-- ===== src/Commands/Ltp/Packets.antt =====
-- What AX.25 packets do to an LTP station of kiss-interface/main.c that runs beside a beacon.
use ion_dtn_terrestrial.Prelude.{
  ℕ, suc, ◌==◌, Bool, true, false, not, ltb, List, [], ◌∷◌, map, length, Option, some, ◌≡◌, ◌∙◌,
  refl, sym, ap, subst, All, >>=-eq-some, fail_if,
}
use ion_dtn_terrestrial.Prelude.Bits.{Bytes}
use ion_dtn_terrestrial.Kiss.{
  Decoder, Outcome, more, frame, error, kiss_decoder_init, kiss_decoder_feed, max_payload, feed_all,
  noted,
}
use ion_dtn_terrestrial.Ax25.{ax25_strip_frame, hdr_len, control_byte, pid_byte}
use ion_dtn_terrestrial.Aprs.{aprs_is_ax25_frame}
use ion_dtn_terrestrial.Ltp.Engine.State.{Timespec, Engine, Link}
use ion_dtn_terrestrial.Commands.{Packet}
use ion_dtn_terrestrial.Commands.Transmission.{
  Transmitted, Carry, no_frames, carries, feed_all-Transmitted, first-Transmitted,
}
use ion_dtn_terrestrial.Commands.Ltp.{on_beside, feed_beside}

-- What ax25_strip_frame accepts is an AX.25 frame to aprs_is_ax25_frame.
pub strip-is_ax25_frame :
    (f : Bytes) {fields : Bytes × Bytes × Bytes}
    → ax25_strip_frame f ≡ some fields
    → aprs_is_ax25_frame f ≡ true
unfolding ax25_strip_frame aprs_is_ax25_frame
strip-is_ax25_frame f e =
    let (u, long, e1) = >>=-eq-some (fail_if (ltb (length f) hdr_len)) _ e in
    let (v, control, e2) = >>=-eq-some (fail_if (not (control_byte f == 0x03))) _ e1 in
    let (w, pid, e3) = >>=-eq-some (fail_if (not (pid_byte f == 0xF0))) _ e2 in
    rw (passed _ long, passed _ control, passed _ pid) refl
  where
    passed : (test : Bool) {u : Unit {0}} → fail_if test ≡ some u → test ≡ false
    passed true p = cc
    passed false p = refl

-- A call that returns 0 or -1, or completes an AX.25 frame.
abbrev IsHarmless : Outcome → Type 0
IsHarmless (frame payload) = aprs_is_ax25_frame payload ≡ true
IsHarmless more = Unit {0}
IsHarmless error = Unit {0}

noted-IsHarmless :
    (outcome : Outcome) (outcomes : List Outcome)
    → All IsHarmless (noted outcome outcomes)
    → IsHarmless outcome × All IsHarmless outcomes
noted-IsHarmless more outcomes h = (tt, h)
noted-IsHarmless (frame payload) outcomes h = h
noted-IsHarmless error outcomes h = h

module _ (link : Link) where
  on_beside-harmless :
      (now : Timespec) (outcome : Outcome) (eng : Engine)
      → IsHarmless outcome
      → on_beside link now outcome eng ≡ eng
  on_beside-harmless now (frame payload) eng h = rw h refl
  on_beside-harmless now more eng h = refl
  on_beside-harmless now error eng h = refl

  feed_beside-harmless :
      (time : ℕ → Timespec) (i : ℕ) (bytes : Bytes) (dec : Decoder) (eng : Engine)
      → All IsHarmless (feed_all dec bytes max_payload).1
      → (feed_beside link time i bytes (dec, eng)).1 ≡ eng
  unfolding feed_beside feed_all
  feed_beside-harmless time i [] dec eng h = refl
  feed_beside-harmless time i (b ∷ bytes) dec eng h =
      let (next, outcome) = kiss_decoder_feed dec b max_payload in
      let (this, later) = noted-IsHarmless outcome (feed_all next bytes max_payload).1 h in
      ap (λ e. (feed_beside link time (suc i) bytes (next, e)).1)
        (on_beside-harmless (time i) outcome eng this)
      ∙ feed_beside-harmless time (suc i) bytes next eng later

  Carry-IsHarmless :
      {frames : List Bytes} {packets : List Packet}
      → Carry frames packets
      → All IsHarmless (map frame frames)
  Carry-IsHarmless no_frames = tt
  Carry-IsHarmless (carries {f} from to short read carried) =
      (strip-is_ax25_frame f read, Carry-IsHarmless carried)

  -- Packets that other stations send with cmd_send leave the LTP engine of a station that runs
  -- beside a beacon as it is.
  pub feed_beside-Transmitted :
      {write : Bytes → Option ℕ} {packets : List Packet} {bytes : Bytes} (time : ℕ → Timespec)
      (eng : Engine)
      → Transmitted write packets bytes
      → (feed_beside link time 0 bytes (kiss_decoder_init, eng)).1 ≡ eng
  feed_beside-Transmitted {write} {packets} {bytes} time eng t =
      let (frames, reports, carried) = feed_all-Transmitted t in
      feed_beside-harmless time 0 bytes kiss_decoder_init eng (
        subst (All IsHarmless)
          (sym (first-Transmitted t ∙ ap (λ (r : Decoder × List Outcome). r.1) reports))
          (Carry-IsHarmless carried))

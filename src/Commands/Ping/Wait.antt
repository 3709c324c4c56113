-- ===== src/Commands/Ping/Wait.antt =====
-- The command ping of kiss-interface/main.c: the wait for a reply.
use ion_dtn_terrestrial.Prelude.{
  ℕ, ◌<◌, ◌==◌, Bool, true, false, ◌||◌, [], ◌∷◌, ◌++◌, List, ◌≡◌, ◌∙◌, refl, sym, arith, Option,
  Bool-cases, inl, inr,
}
use ion_dtn_terrestrial.Prelude.Bits.{Bytes}
use ion_dtn_terrestrial.Kiss.{
  Decoder, Outcome, more, frame, error, kiss_decoder_init, kiss_decoder_feed, max_payload, feed_all,
  noted,
}
use ion_dtn_terrestrial.Kiss.RoundTrip.{feed_all-append}
use ion_dtn_terrestrial.Commands.{Fields}
use ion_dtn_terrestrial.Commands.Ping.{
  is_reply, ping_bytes, WaitEvent, interrupted, poll_failed, timed_out, no_input, read_failed,
  read_bytes, WaitRound, remaining, Waited, replied, while_time, wait_rounds, wait_reply,
}

-- The bytes that come in while a ping waits.
abbrev pub arriving : List WaitRound → Bytes
arriving [] = []
arriving ((read_bytes read_buf, now_us) ∷ rounds) = read_buf ++ arriving rounds
arriving ((_, now_us) ∷ rounds) = arriving rounds

-- Neither a failure nor the time ends the wait.
abbrev pub goes_on : WaitEvent → Bool
goes_on interrupted = true
goes_on no_input = true
goes_on (read_bytes read_buf) = true
goes_on _ = false

abbrev pub AreInTime : ℕ → ℕ → List WaitRound → Type 0
AreInTime timeout_ms wait_start [] = Unit {0}
AreInTime timeout_ms wait_start ((event, now_us) ∷ rounds) =
    (goes_on event ≡ true)
    × (0 < remaining timeout_ms wait_start now_us)
    × AreInTime timeout_ms wait_start rounds

while_time-left : (n : ℕ) (rest : Waited) → 0 < n → while_time n rest ≡ rest
while_time-left n rest h = let some_left : (n == 0) ≡ false = ground arith in rw some_left refl

module _ (overflown : Fields → Option Fields) where
  abbrev pub any_reply : ℕ → List Outcome → Bool
  any_reply seq [] = false
  any_reply seq (outcome ∷ outcomes) = is_reply overflown seq outcome || any_reply seq outcomes

  any_reply-noted :
      (seq : ℕ) (outcome : Outcome) (outcomes : List Outcome)
      → any_reply seq (noted outcome outcomes)
        ≡ (is_reply overflown seq outcome || any_reply seq outcomes)
  unfolding is_reply
  any_reply-noted seq more outcomes = refl
  any_reply-noted seq (frame payload) outcomes = refl
  any_reply-noted seq error outcomes = refl

  any_reply-append :
      (seq : ℕ) (xs ys : List Outcome)
      → any_reply seq (xs ++ ys) ≡ (any_reply seq xs || any_reply seq ys)
  any_reply-append seq [] ys = refl
  any_reply-append seq (x ∷ xs) ys = ground (arith, any_reply-append seq xs ys)

  -- What a wait looks for in the bytes of one reading.
  ping_bytes-found :
      (seq : ℕ) (dec : Decoder) (bytes : Bytes)
      → (ping_bytes overflown seq dec bytes).1 ≡ any_reply seq (feed_all dec bytes max_payload).1
  unfolding ping_bytes feed_all
  ping_bytes-found seq dec [] = refl
  ping_bytes-found seq dec (b ∷ bytes) =
      let (dec', outcome) = kiss_decoder_feed dec b max_payload in
      let seen = any_reply-noted seq outcome (feed_all dec' bytes max_payload).1 in
      elim (Bool-cases (is_reply overflown seq outcome)) [
        | inl reply ↦ rw seen (rw reply refl)
        | inr other ↦ rw seen (rw other (ping_bytes-found seq dec' bytes))
      ]

  ping_bytes-not_found :
      (seq : ℕ) (dec : Decoder) (bytes : Bytes)
      → any_reply seq (feed_all dec bytes max_payload).1 ≡ false
      → (ping_bytes overflown seq dec bytes).0 ≡ (feed_all dec bytes max_payload).0
  unfolding ping_bytes feed_all
  ping_bytes-not_found seq dec [] h = refl
  ping_bytes-not_found seq dec (b ∷ bytes) h =
      let (dec', outcome) = kiss_decoder_feed dec b max_payload in
      let seen = any_reply-noted seq outcome (feed_all dec' bytes max_payload).1 in
      let neither : (is_reply overflown seq outcome
            || any_reply seq (feed_all dec' bytes max_payload).1)
          ≡ false =
        sym seen ∙ h in
      let other : is_reply overflown seq outcome ≡ false = first_false _ _ neither in
      rw other (ping_bytes-not_found seq dec' bytes (second_false _ _ neither))
    where
      first_false : (a b : Bool) → (a || b) ≡ false → a ≡ false
      first_false false b e = refl
      first_false true b e = cc

      second_false : (a b : Bool) → (a || b) ≡ false → b ≡ false
      second_false false b e = e
      second_false true b e = cc

  wait_rounds-replied :
      (seq timeout_ms wait_start : ℕ) (dec : Decoder) (rounds : List WaitRound)
      → AreInTime timeout_ms wait_start rounds
      → any_reply seq (feed_all dec (arriving rounds) max_payload).1 ≡ true
      → wait_rounds overflown seq timeout_ms wait_start dec rounds ≡ replied
  unfolding wait_rounds
  wait_rounds-replied seq timeout_ms wait_start dec [] t found = unfold feed_all in cc
  wait_rounds-replied seq timeout_ms wait_start dec ((interrupted, now_us) ∷ rounds) (go, left, t)
        found =
      while_time-left _ _ left ∙ wait_rounds-replied seq timeout_ms wait_start dec rounds t found
  wait_rounds-replied seq timeout_ms wait_start dec ((no_input, now_us) ∷ rounds) (go, left, t)
        found =
      while_time-left _ _ left ∙ wait_rounds-replied seq timeout_ms wait_start dec rounds t found
  wait_rounds-replied seq timeout_ms wait_start dec ((poll_failed, now_us) ∷ rounds) (go, left, t)
        found =
      cc
  wait_rounds-replied seq timeout_ms wait_start dec ((timed_out, now_us) ∷ rounds) (go, left, t)
        found =
      cc
  wait_rounds-replied seq timeout_ms wait_start dec ((read_failed, now_us) ∷ rounds) (go, left, t)
        found =
      cc
  wait_rounds-replied seq timeout_ms wait_start dec ((read_bytes read_buf, now_us) ∷ rounds)
        (go, left, t) found =
      let (dec', outcomes) = feed_all dec read_buf max_payload in
      elim (Bool-cases (any_reply seq outcomes)) [
        | inl here ↦ rw (ping_bytes-found seq dec read_buf, here) refl
        | inr later ↦
            let rest : any_reply seq (feed_all dec' (arriving rounds) max_payload).1 ≡ true =
              sym (
                rw
                  (
                    feed_all-append read_buf (arriving rounds) dec max_payload,
                    any_reply-append,
                    later,
                  )
                  refl)
              ∙ found in
            rw
              (
                ping_bytes-found seq dec read_buf,
                later,
                ping_bytes-not_found seq dec read_buf later,
              )
              (while_time-left _ _ left
                ∙ wait_rounds-replied seq timeout_ms wait_start dec' rounds t rest)
      ]

  -- A reply with the right sequence number is found if it comes in time, however its bytes are split
  -- over readings and whatever interrupts them, among any other frames and bytes.
  pub wait_reply-replied :
      (seq timeout_ms wait_start : ℕ) (rounds : List WaitRound)
      → 0 < timeout_ms
      → AreInTime timeout_ms wait_start rounds
      → any_reply seq (feed_all kiss_decoder_init (arriving rounds) max_payload).1 ≡ true
      → wait_reply overflown seq timeout_ms wait_start rounds ≡ replied
  unfolding wait_reply
  wait_reply-replied seq timeout_ms wait_start rounds some_time t found =
      while_time-left _ _ some_time
      ∙ wait_rounds-replied seq timeout_ms wait_start kiss_decoder_init rounds t found

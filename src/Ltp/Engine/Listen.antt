-- ===== src/Ltp/Engine/Listen.antt =====
-- `ltp_engine_run` of kiss-interface/ltp.c as a sequence of calls of the engine.
use ion_dtn_terrestrial.Prelude.{
  ℕ, suc, ◌≤◌, Bool, ltb, ◌==◌, if◌then◌else◌, Bool-cases, Option-cases, inl, inr, List, [], ◌∷◌,
  length, Option, none, some, ◌≡◌, All,
}
use ion_dtn_terrestrial.Prelude.Bits.{Bytes}
use ion_dtn_terrestrial.Kiss.{
  Decoder, Outcome, more, frame, error, kiss_decoder_init, kiss_decoder_feed, max_payload,
}
use ion_dtn_terrestrial.Ax25.{ax25_strip_frame}
use ion_dtn_terrestrial.Ltp.Engine.State.{Timespec, Engine, Link}
use ion_dtn_terrestrial.Ltp.Types.{max_block_size}
use ion_dtn_terrestrial.Ltp.Engine.Delivery.{IsSent}
use ion_dtn_terrestrial.Ltp.Engine.Genuine.{IsGenuine}
use ion_dtn_terrestrial.Ltp.Engine.Process.{ltp_process_segment}
use ion_dtn_terrestrial.Ltp.Engine.Reach.{IsReached, register, process, fire, deliveries-IsSent}
use ion_dtn_terrestrial.Ltp.Engine.Run.{
  register_both, register_sender, without_ssid, is_aprs, handle_payload, on_outcome, feed_read,
  Event, interrupted, poll_failed, timed_out, no_input, read_failed, read_bytes, Round, end_round,
  run_round, run_rounds, waited_for, ltp_engine_run,
}

module _ (blocks : ℕ → ℕ → Bytes)
    (small : (id number : ℕ) → length (blocks id number) ≤ max_block_size) where
  -- A frame of the port that holds, alone or inside AX.25, genuine segments only.
  pub record IsGenuineFrame (payload : Bytes) : Type 0 where
    pub alone : IsGenuine blocks small payload
    pub inside :
        (asrc adst info : Bytes)
        → ax25_strip_frame payload ≡ some (asrc, adst, info)
        → IsGenuine blocks small info

  abbrev pub OutcomeIsGenuine : Outcome → Type 0
  OutcomeIsGenuine (frame payload) = IsGenuineFrame payload
  OutcomeIsGenuine more = Unit
  OutcomeIsGenuine error = Unit

  -- The decoder in this state takes genuine frames only from these bytes.
  abbrev pub ReadIsGenuine : Decoder → Bytes → Type 0
  ReadIsGenuine dec [] = Unit
  ReadIsGenuine dec (b ∷ bytes) =
      OutcomeIsGenuine (kiss_decoder_feed dec b max_payload).1
      × ReadIsGenuine (kiss_decoder_feed dec b max_payload).0 bytes

  module _ (link : Link) where
    abbrev Reached : Engine → Type 0
    Reached eng = IsReached blocks small link eng

    register_both-Reached :
        (call : Bytes) (eng : Engine) → Reached eng → Reached (register_both call eng)
    unfolding register_both
    register_both-Reached call eng r = register _ (register _ r)

    register_sender-Reached :
        (asrc : Bytes) (eng : Engine) → Reached eng → Reached (register_sender asrc eng)
    unfolding register_sender
    register_sender-Reached asrc eng r = elim (Bool-cases (length asrc == 0)) [
      | inl empty ↦ rw empty r
      | inr named ↦ elim (Bool-cases (without_ssid asrc)) [
        | inl zero_ssid ↦
            rw (named, zero_ssid) (register_both-Reached _ _ (register_both-Reached asrc eng r))
        | inr with_ssid ↦ rw (named, with_ssid) (register_both-Reached asrc eng r)
      ]
    ]

    inside_frame-Reached :
        (now : Timespec) (payload asrc adst info : Bytes) (eng : Engine)
        → IsGenuineFrame payload
        → ax25_strip_frame payload ≡ some (asrc, adst, info)
        → Reached eng
        → Reached (
            if ltb 0 (length info)
            then (if is_aprs info
                then register_sender asrc eng
                else (ltp_process_segment link now info (register_sender asrc eng)).0)
            else (ltp_process_segment link now payload eng).0)
    inside_frame-Reached now payload asrc adst info eng h stripped r =
        let known = register_sender-Reached asrc eng r in
        elim (Bool-cases (ltb 0 (length info))) [
          | inr empty ↦ rw empty (process now payload h.alone r)
          | inl some_info ↦ elim (Bool-cases (is_aprs info)) [
            | inl printed ↦ rw (some_info, printed) known
            | inr segment ↦
                rw (some_info, segment) (process now info (h.inside asrc adst info stripped) known)
          ]
        ]

    handle_payload-Reached :
        (now : Timespec) (payload : Bytes) (eng : Engine)
        → IsGenuineFrame payload
        → Reached eng
        → Reached (handle_payload link now payload eng)
    unfolding handle_payload
    handle_payload-Reached now payload eng h r = elim (Option-cases (ax25_strip_frame payload)) [
      | inl plain ↦ rw (plain, handle_payload) (process now payload h.alone r)
      | inr ((asrc, adst, info), stripped) ↦
          rw (stripped, handle_payload)
            (inside_frame-Reached now payload asrc adst info eng h stripped r)
    ]

    on_outcome-Reached :
        (now : Timespec) (outcome : Outcome) (eng : Engine)
        → OutcomeIsGenuine outcome
        → Reached eng
        → Reached (on_outcome link now outcome eng)
    on_outcome-Reached now (frame payload) eng h r = handle_payload-Reached now payload eng h r
    on_outcome-Reached now more eng h r = r
    on_outcome-Reached now error eng h r = r

    feed_read-Reached :
        (time : ℕ → Timespec) (i : ℕ) (bytes : Bytes) (dec : Decoder) (eng : Engine)
        → ReadIsGenuine dec bytes
        → Reached eng
        → Reached (feed_read link time i bytes (dec, eng)).1
    unfolding feed_read
    feed_read-Reached time i [] dec eng h r = r
    feed_read-Reached time i (b ∷ bytes) dec eng (h, hs) r =
        feed_read-Reached time (suc i) bytes _ _ hs
          (on_outcome-Reached (time i) (kiss_decoder_feed dec b max_payload).1 eng h r)

    end_round-Reached :
        (waiting : Option ℕ) (now : Timespec) (dec : Decoder) (eng : Engine)
        → Reached eng
        → Reached (end_round link waiting now (dec, eng)).0.1
    unfolding end_round
    end_round-Reached none now dec eng r = fire now r
    end_round-Reached (some number) now dec eng r = fire now r

    -- The bytes of a round are genuine to the decoder that takes them.
    abbrev pub RoundIsGenuine : Decoder → Event → Type 0
    RoundIsGenuine dec (read_bytes bytes) = ReadIsGenuine dec bytes
    RoundIsGenuine dec interrupted = Unit
    RoundIsGenuine dec poll_failed = Unit
    RoundIsGenuine dec timed_out = Unit
    RoundIsGenuine dec no_input = Unit
    RoundIsGenuine dec read_failed = Unit

    round_result-Reached :
        (waiting : Option ℕ) (event : Event) (t e : Timespec) (time : ℕ → Timespec) (dec : Decoder)
        (eng : Engine)
        → RoundIsGenuine dec event
        → Reached eng
        → Reached
            (run_round link waiting
              (record { event = event; timeout_time = t; byte_time = time; end_time = e })
              (dec, eng)).0.1
    unfolding run_round
    round_result-Reached waiting (read_bytes bytes) t e time dec eng h r =
        end_round-Reached waiting e _ _ (feed_read-Reached time 0 bytes dec eng h r)
    round_result-Reached waiting interrupted t e time dec eng h r = r
    round_result-Reached waiting poll_failed t e time dec eng h r = r
    round_result-Reached waiting timed_out t e time dec eng h r =
        end_round-Reached waiting e dec _ (fire t r)
    round_result-Reached waiting no_input t e time dec eng h r =
        end_round-Reached waiting e dec eng r
    round_result-Reached waiting read_failed t e time dec eng h r = r

    -- Every frame that the decoder completes in these rounds is genuine.
    abbrev pub RoundsAreGenuine : Option ℕ → List Round → Decoder × Engine → Type 0
    RoundsAreGenuine waiting [] state = Unit
    RoundsAreGenuine waiting (round ∷ rounds) state =
        RoundIsGenuine state.0 round.event
        × RoundsAreGenuine waiting rounds (run_round link waiting round state).0

    run_rounds-Reached :
        (waiting : Option ℕ) (rounds : List Round) (state : Decoder × Engine)
        → RoundsAreGenuine waiting rounds state
        → Reached state.1
        → Reached (run_rounds link waiting rounds state).0
    unfolding run_rounds
    run_rounds-Reached waiting [] state h r = r
    run_rounds-Reached waiting (round ∷ rounds) state (h, hs) r =
        let next =
          round_result-Reached waiting round.event round.timeout_time round.end_time round.byte_time
            state.0 state.1 h r in
        elim (Option-cases (run_round link waiting round state).1) [
          | inl again ↦
              rw (again, run_rounds)
                (run_rounds-Reached waiting rounds (run_round link waiting round state).0 hs next)
          | inr (ok, returned) ↦ rw (returned, run_rounds) next
        ]

    -- An engine that has been reached by its calls and then runs, in either mode, whatever poll, read
    -- and the clock yield: if every frame that its KISS decoder completes holds genuine segments, all
    -- blocks that have been delivered when the loop returns are whole blocks of their senders.
    pub ltp_engine_run-IsSent :
        (send_mode : Bool) (rounds : List Round) (eng : Engine)
        → RoundsAreGenuine (waited_for send_mode eng) rounds (kiss_decoder_init, eng)
        → IsReached blocks small link eng
        → All (IsSent blocks) (ltp_engine_run link send_mode rounds eng).0.deliveries
    unfolding ltp_engine_run
    ltp_engine_run-IsSent send_mode rounds eng h r =
        deliveries-IsSent blocks small link _
          (run_rounds-Reached (waited_for send_mode eng) rounds (kiss_decoder_init, eng) h r)

-- ===== src/Commands/Ltp/Delivered.antt =====
-- What the LTP commands of kiss-interface/main.c deliver.
use ion_dtn_terrestrial.Prelude.{
  ℕ, suc, ◌≤◌, Bool, false, Bool-cases, inl, inr, List, [], ◌∷◌, length, Option, none, some, ◌≡◌,
  All,
}
use ion_dtn_terrestrial.Prelude.Bits.{Bytes}
use ion_dtn_terrestrial.Kiss.{
  Decoder, Outcome, more, frame, error, kiss_decoder_init, kiss_decoder_feed, max_payload,
}
use ion_dtn_terrestrial.Aprs.{aprs_is_ax25_frame}
use ion_dtn_terrestrial.Beacon.{Beacon}
use ion_dtn_terrestrial.Ltp.Types.{max_block_size}
use ion_dtn_terrestrial.Ltp.Engine.State.{Timespec, Engine, Config, Link}
use ion_dtn_terrestrial.Ltp.Engine.Endpoints.{ltp_engine_init}
use ion_dtn_terrestrial.Ltp.Engine.Delivery.{IsSent}
use ion_dtn_terrestrial.Ltp.Engine.Genuine.{IsGenuine}
use ion_dtn_terrestrial.Ltp.Engine.Reach.{IsReached, start, process, fire, deliveries-IsSent}
use ion_dtn_terrestrial.Ltp.Engine.Run.{Round}
use ion_dtn_terrestrial.Ltp.Engine.Listen.{RoundsAreGenuine, ltp_engine_run-IsSent}
use ion_dtn_terrestrial.Commands.Beaconing.{Transmission, send_beacon}
use ion_dtn_terrestrial.Commands.Ltp.{
  interrupted, poll_failed, no_input, read_bytes, BesideTimes, BesideRound, on_beside, feed_beside,
  Beside, end_beside, unless_ended, beside_rounds, beside, recv_beside, cmd_ltp_recv,
}

module _ (blocks : ℕ → ℕ → Bytes)
    (small : (id number : ℕ) → length (blocks id number) ≤ max_block_size) where
  -- A frame that is not taken for an APRS packet holds genuine segments only.
  abbrev pub BesideIsGenuine : Outcome → Type 0
  BesideIsGenuine (frame payload) =
      aprs_is_ax25_frame payload ≡ false → IsGenuine blocks small payload
  BesideIsGenuine more = Unit
  BesideIsGenuine error = Unit

  -- The decoder in this state takes such frames only from these bytes.
  abbrev pub BytesAreGenuine : Decoder → Bytes → Type 0
  BytesAreGenuine dec [] = Unit
  BytesAreGenuine dec (b ∷ bytes) =
      BesideIsGenuine (kiss_decoder_feed dec b max_payload).1
      × BytesAreGenuine (kiss_decoder_feed dec b max_payload).0 bytes

  module _ (link : Link) where
    abbrev Reached : Engine → Type 0
    Reached eng = IsReached blocks small link eng

    -- The rounds of a loop beside a beacon, from this state on.
    abbrev pub BesideAreGenuine : List BesideRound → Beside → Type 0
    BesideAreGenuine [] state = Unit
    BesideAreGenuine ((interrupted, times) ∷ rounds) state = BesideAreGenuine rounds state
    BesideAreGenuine ((poll_failed, times) ∷ rounds) state = Unit
    BesideAreGenuine ((no_input, times) ∷ rounds) state =
        BesideAreGenuine rounds (end_beside link times (state.decoder, state.engine) state.beacon)
    BesideAreGenuine ((read_bytes bytes, times) ∷ rounds) state =
        BytesAreGenuine state.decoder bytes
        × BesideAreGenuine rounds (
            end_beside link times
              (feed_beside link times.byte_time 0 bytes (state.decoder, state.engine)) state.beacon)

    on_beside-Reached :
        (now : Timespec) (outcome : Outcome) (eng : Engine)
        → BesideIsGenuine outcome
        → Reached eng
        → Reached (on_beside link now outcome eng)
    on_beside-Reached now more eng h r = r
    on_beside-Reached now error eng h r = r
    on_beside-Reached now (frame payload) eng h r = elim (Bool-cases (aprs_is_ax25_frame payload)) [
      | inl packet ↦ rw packet r
      | inr segment ↦ rw segment (process now payload (h segment) r)
    ]

    feed_beside-Reached :
        (time : ℕ → Timespec) (i : ℕ) (bytes : Bytes) (dec : Decoder) (eng : Engine)
        → BytesAreGenuine dec bytes
        → Reached eng
        → Reached (feed_beside link time i bytes (dec, eng)).1
    unfolding feed_beside
    feed_beside-Reached time i [] dec eng h r = r
    feed_beside-Reached time i (b ∷ bytes) dec eng (h, hs) r =
        feed_beside-Reached time (suc i) bytes _ _ hs
          (on_beside-Reached (time i) (kiss_decoder_feed dec b max_payload).1 eng h r)

    end_beside-Reached :
        (times : BesideTimes) (dec : Decoder) (eng : Engine) (beacon : Beacon)
        → Reached eng
        → Reached (end_beside link times (dec, eng) beacon).engine
    unfolding end_beside
    end_beside-Reached times dec eng beacon r = fire times.fire_time r

    unless_ended-Reached :
        (ended : Option Bool) (rest : Engine × Bool) (eng : Engine)
        → Reached rest.0
        → Reached eng
        → Reached (unless_ended ended rest eng).0
    unless_ended-Reached none rest eng h r = h
    unless_ended-Reached (some ok) rest eng h r = r

    beside_rounds-Reached :
        (waiting : Option ℕ) (rounds : List BesideRound) (state : Beside)
        → BesideAreGenuine rounds state
        → Reached state.engine
        → Reached (beside_rounds link waiting rounds state).0
    unfolding beside_rounds
    beside_rounds-Reached waiting [] state h r = r
    beside_rounds-Reached waiting ((interrupted, times) ∷ rounds) state h r =
        beside_rounds-Reached waiting rounds state h r
    beside_rounds-Reached waiting ((poll_failed, times) ∷ rounds) state h r = r
    beside_rounds-Reached waiting ((no_input, times) ∷ rounds) state h r =
        let reached = end_beside-Reached times state.decoder state.engine state.beacon r in
        unless_ended-Reached _ _ _ (beside_rounds-Reached waiting rounds _ h reached) reached
    beside_rounds-Reached waiting ((read_bytes bytes, times) ∷ rounds) state (h, hs) r =
        let fed = feed_beside-Reached times.byte_time 0 bytes state.decoder state.engine h r in
        let (dec, eng) = feed_beside link times.byte_time 0 bytes (state.decoder, state.engine) in
        let reached = end_beside-Reached times dec eng state.beacon fed in
        unless_ended-Reached _ _ _ (beside_rounds-Reached waiting rounds _ hs reached) reached

    -- An LTP receiver beside a beacon has delivered only whole blocks of their senders when it stops,
    -- whatever poll, read, the clock and the beacon do, if every frame that its KISS decoder completes
    -- is an AX.25 frame, which is only printed, or holds genuine segments.
    pub recv_beside-IsSent :
        (local_eid : Bytes) (cfg : Config) (beacon : Beacon) (first : Transmission)
        (rounds : List BesideRound)
        → BesideAreGenuine rounds
            (beside (send_beacon beacon first).0 (ltp_engine_init local_eid (some cfg)).0)
        → All (IsSent blocks) (recv_beside link local_eid cfg beacon first rounds).0.deliveries
    unfolding recv_beside
    recv_beside-IsSent local_eid cfg beacon first rounds h =
        elim (Bool-cases (ltp_engine_init local_eid (some cfg)).1) [
          | inl ok ↦ rw ok (
              deliveries-IsSent blocks small link _
                (beside_rounds-Reached none rounds _ h (start local_eid (some cfg))))
          | inr refused ↦
              rw refused (deliveries-IsSent blocks small link _ (start local_eid (some cfg)))
        ]

    -- The receiver alone, with the loop of the engine.
    cmd_ltp_recv-IsSent :
        (local_eid : Bytes) (cfg : Config) (rounds : List Round)
        → RoundsAreGenuine blocks small link none rounds
            (kiss_decoder_init, (ltp_engine_init local_eid (some cfg)).0)
        → All (IsSent blocks) (cmd_ltp_recv link local_eid cfg rounds).0.deliveries
    unfolding cmd_ltp_recv
    cmd_ltp_recv-IsSent local_eid cfg rounds h =
        elim (Bool-cases (ltp_engine_init local_eid (some cfg)).1) [
          | inl ok ↦ rw ok (
              ltp_engine_run-IsSent blocks small link false rounds _ h (start local_eid (some cfg)))
          | inr refused ↦
              rw refused (deliveries-IsSent blocks small link _ (start local_eid (some cfg)))
        ]

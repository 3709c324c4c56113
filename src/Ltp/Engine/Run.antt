-- ===== src/Ltp/Engine/Run.antt =====
-- `ltp_engine_run` of kiss-interface/ltp.c: the loop that reads the port, takes frames apart and
-- fires timers. What poll, read and the clock yield is given round by round; how long poll waits
-- only decides which of it comes. When no round is left, `g_running` has been cleared.
use ion_dtn_terrestrial.Prelude.{
  ℕ, suc, ◌+◌, ◌-◌, ◌%◌, ◌^◌, Bool, true, false, ◌&&◌, ◌==◌, leb, ltb, if◌then◌else◌, List, [], ◌∷◌,
  map, length, take, drop, starts_with, Option, none, some,
}
use ion_dtn_terrestrial.Prelude.Bits.{Bytes}
use ion_dtn_terrestrial.Kiss.{
  Decoder, Outcome, more, frame, error, kiss_decoder_init, kiss_decoder_feed, max_payload,
}
use ion_dtn_terrestrial.Ax25.{ax25_strip_frame}
use ion_dtn_terrestrial.Ltp.Engine.State.{Timespec, Engine, ExportSession, Link}
use ion_dtn_terrestrial.Ltp.Engine.Endpoints.{ltp_register_endpoint}
use ion_dtn_terrestrial.Ltp.Engine.Process.{ltp_process_segment}
use ion_dtn_terrestrial.Ltp.Engine.Fire.{ltp_fire_expired_timers}

abbrev pub lower_char : ℕ → ℕ
lower_char c = if leb b'A' c && leb c b'Z' then c + 32 else c

-- "dtn://%s"
abbrev pub dtn_eid : Bytes → Bytes
dtn_eid call = b'd' ∷ b't' ∷ b'n' ∷ b':' ∷ b'/' ∷ b'/' ∷ call

-- The callsign as it is, and in lower case.
unfoldable pub register_both : Bytes → Engine → Engine
register_both call eng =
    (ltp_register_endpoint (dtn_eid (map lower_char call))
      (ltp_register_endpoint (dtn_eid call) eng).0).0

abbrev pub without_ssid : Bytes → Bool
without_ssid asrc =
    leb 2 (length asrc) && starts_with (b'-' ∷ b'0' ∷ []) (drop (length asrc - 2) asrc)

unfoldable pub register_sender : Bytes → Engine → Engine
unfolding register_both
register_sender asrc eng =
    if length asrc == 0
    then eng
    else let both = register_both asrc eng in
      if without_ssid asrc then register_both (take (length asrc - 2) asrc) both else both

abbrev aprs_types : Bytes
aprs_types =
    b'!' ∷ b'/' ∷ b'=' ∷ b'@' ∷ b'>' ∷ b':' ∷ b';' ∷ b')' ∷ 0x60 ∷ 0x27 ∷ b'#' ∷ b'$' ∷ b'%' ∷ b'T'
    ∷ b'{' ∷ []

abbrev one_of : ℕ → Bytes → Bool
one_of first [] = false
one_of first (c ∷ types) = if first == c then true else one_of first types

-- "Check if payload is APRS": those are only printed.
unfoldable pub is_aprs : Bytes → Bool
is_aprs [] = false
is_aprs (first ∷ info) = one_of first aprs_types

-- A frame of the port: an LTP segment inside AX.25, an APRS packet, or a segment alone.
unfoldable pub handle_payload : Link → Timespec → Bytes → Engine → Engine
unfolding register_sender is_aprs
handle_payload link now payload eng =
    let raw = (ltp_process_segment link now payload eng).0 in
    elim (ax25_strip_frame payload) [
      | none ↦ raw
      | some (asrc, adst, info) ↦
          let known = register_sender asrc eng in
          let inside = (ltp_process_segment link now info known).0 in
          if ltb 0 (length info) then (if is_aprs info then known else inside) else raw
    ]

abbrev pub on_outcome : Link → Timespec → Outcome → Engine → Engine
on_outcome link now (frame payload) eng = handle_payload link now payload eng
on_outcome link now more eng = eng
on_outcome link now error eng = eng

-- The bytes that were read, at the time at which each is taken.
unfoldable pub feed_read : Link → (ℕ → Timespec) → ℕ → Bytes → Decoder × Engine → Decoder × Engine
unfolding handle_payload
feed_read link time i [] state = state
feed_read link time i (b ∷ bytes) (dec, eng) =
    let (next, outcome) = kiss_decoder_feed dec b max_payload in
    feed_read link time (suc i) bytes (next, on_outcome link (time i) outcome eng)

-- What one call of poll, and of read behind it, yields.
pub data Event : Type 0 where
  interrupted poll_failed timed_out no_input read_failed : Event
  read_bytes : Bytes → Event

pub record Round : Type 0 where
  pub event : Event
  pub timeout_time : Timespec
  pub byte_time : ℕ → Timespec
  pub end_time : Timespec

-- The first session with the number decides: 0, -1, or another round.
unfoldable pub send_result : ℕ → List ExportSession → Option Bool
send_result number [] = none
send_result number (sess ∷ sessions) =
    let later = send_result number sessions in
    if sess.session_number == number
    then (if sess.completed then some true else if sess.cancelled then some false else none)
    else later

-- The end of a round: the timers, and the session that is waited for.
unfoldable pub end_round :
    Link → Option ℕ → Timespec → Decoder × Engine → (Decoder × Engine) × Option Bool
unfolding send_result
end_round link none now (dec, eng) = ((dec, (ltp_fire_expired_timers link now eng).0), none)
end_round link (some number) now (dec, eng) =
    let fired = (ltp_fire_expired_timers link now eng).0 in
    ((dec, fired), send_result number fired.export_sessions)

unfoldable pub run_round :
    Link → Option ℕ → Round → Decoder × Engine → (Decoder × Engine) × Option Bool
unfolding feed_read end_round
run_round link waiting round (dec, eng) = elim round.event [
  | interrupted ↦ ((dec, eng), none)
  | poll_failed ↦ ((dec, eng), some false)
  | read_failed ↦ ((dec, eng), some false)
  | timed_out ↦
      end_round link waiting round.end_time
        (dec, (ltp_fire_expired_timers link round.timeout_time eng).0)
  | no_input ↦ end_round link waiting round.end_time (dec, eng)
  | read_bytes bytes ↦
      end_round link waiting round.end_time (feed_read link round.byte_time 0 bytes (dec, eng))
]

unfoldable pub run_rounds : Link → Option ℕ → List Round → Decoder × Engine → Engine × Bool
unfolding run_round
run_rounds link waiting [] (dec, eng) = (eng, true)
run_rounds link waiting (round ∷ rounds) state =
    let ((dec, eng), result) = run_round link waiting round state in
    let rest = run_rounds link waiting rounds (dec, eng) in
    elim result [ some ok ↦ (eng, ok) | none ↦ rest ]

-- The most recent session, in send mode.
abbrev pub waited_for : Bool → Engine → Option ℕ
waited_for send_mode eng =
    if send_mode then some ((eng.next_session_number + 2 ^ 64 - 1) % 2 ^ 64) else none

-- The Boolean says whether 0 is returned.
unfoldable pub ltp_engine_run : Link → Bool → List Round → Engine → Engine × Bool
unfolding run_rounds
ltp_engine_run link send_mode rounds eng =
    run_rounds link (waited_for send_mode eng) rounds (kiss_decoder_init, eng)

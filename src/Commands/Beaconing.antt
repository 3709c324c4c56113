-- ===== src/Commands/Beaconing.antt =====
-- The command beacon of kiss-interface/main.c: the loop that waits and transmits. What poll, write
-- and the clock yield is given round by round; where the list ends, `g_running` has been cleared.
pub mod Spacing
use ion_dtn_terrestrial.Prelude.{
  ℕ, Bool, true, false, List, [], ◌∷◌, ◌++◌, Option, none, some, if◌then◌else◌,
}
use ion_dtn_terrestrial.Prelude.Bits.{Bytes}
use ion_dtn_terrestrial.Ltp.Engine.State.{Timespec}
use ion_dtn_terrestrial.Beacon.{Beacon, Coordinate, beacon_init, beacon_transmit, beacon_is_due}

-- "github.com/g4dpz/ion-dtn-terrestrial"
abbrev pub default_comment : Bytes
default_comment =
    b'g' ∷ b'i' ∷ b't' ∷ b'h' ∷ b'u' ∷ b'b' ∷ b'.' ∷ b'c' ∷ b'o' ∷ b'm' ∷ b'/' ∷ b'g' ∷ b'4' ∷ b'd'
    ∷ b'p' ∷ b'z' ∷ b'/' ∷ b'i' ∷ b'o' ∷ b'n' ∷ b'-' ∷ b'd' ∷ b't' ∷ b'n' ∷ b'-' ∷ b't' ∷ b'e'
    ∷ b'r' ∷ b'r' ∷ b'e' ∷ b's' ∷ b't' ∷ b'r' ∷ b'i' ∷ b'a' ∷ b'l' ∷ []

abbrev pub comment_or_default : Option Bytes → Bytes
comment_or_default none = default_comment
comment_or_default (some []) = default_comment
comment_or_default (some (c ∷ comment)) = c ∷ comment

-- One call of write() in beacon_transmit: what it returns, and the clock behind it.
pub record Transmission : Type 0 where
  pub written : Option ℕ
  pub sent_time : Timespec

abbrev pub send_beacon : Beacon → Transmission → Beacon × Bool
send_beacon state t = beacon_transmit state t.written t.sent_time

-- How a call of poll ends: with EINTR, with another error, or with input or the timeout.
pub data Polled : Type 0 where
  interrupted poll_failed woken : Polled

-- With the clock as beacon_is_due reads it, and the transmission if there is one.
abbrev pub BeaconRound : Type 0
BeaconRound = Polled × Timespec × Transmission

abbrev pub due : Option Bool → Bool
due none = false
due (some is_due) = is_due

-- The beacon, and the times of its successful transmissions.
abbrev pub logged : Beacon × Bool → Timespec → Beacon × List Timespec
logged (state, true) sent_time = (state, sent_time ∷ [])
logged (state, false) sent_time = (state, [])

-- `if (beacon_is_due(&beacon) == 1) beacon_transmit(&beacon, fd);`
unfoldable pub transmit_if_due : Beacon → Timespec → Transmission → Beacon × List Timespec
transmit_if_due state now t =
    if due (beacon_is_due state now) then logged (send_beacon state t) t.sent_time else (state, [])

-- What the loop ends with: the beacon, the times of its transmissions, and whether 0 is returned.
abbrev pub BeaconEnd : Type 0
BeaconEnd = Beacon × List Timespec × Bool

abbrev pub then_times : List Timespec → BeaconEnd → BeaconEnd
then_times times (state, later, ok) = (state, times ++ later, ok)

unfoldable pub beacon_rounds : Beacon → List BeaconRound → BeaconEnd
unfolding transmit_if_due
beacon_rounds state [] = (state, [], true)
beacon_rounds state ((interrupted, now, t) ∷ rounds) = beacon_rounds state rounds
beacon_rounds state ((poll_failed, now, t) ∷ rounds) = (state, [], false)
beacon_rounds state ((woken, now, t) ∷ rounds) =
    let (next, times) = transmit_if_due state now t in then_times times (beacon_rounds next rounds)

-- The initial transmission must succeed.
abbrev pub after_first : Timespec → List BeaconRound → Beacon × Bool → BeaconEnd
after_first sent_time rounds (state, true) =
    then_times (sent_time ∷ []) (beacon_rounds state rounds)
after_first sent_time rounds (state, false) = (state, [], false)

abbrev pub start_beacon : Transmission → List BeaconRound → Beacon × Bool → BeaconEnd
start_beacon initial rounds (state, true) =
    after_first initial.sent_time rounds (send_beacon state initial)
start_beacon initial rounds (state, false) = (state, [], false)

-- `state` is the uninitialised variable.
unfoldable pub cmd_beacon :
    Beacon
    → Bytes
    → Coordinate
    → Coordinate
    → Option Bytes
    → ℕ
    → Transmission
    → List BeaconRound
    → BeaconEnd
unfolding beacon_rounds
cmd_beacon state callsign lat lon comment interval_sec initial rounds =
    start_beacon initial rounds
      (beacon_init state callsign lat lon (comment_or_default comment) interval_sec)

-- ===== src/Commands/Beaconing/Spacing.antt =====
-- When the beacon of kiss-interface/main.c transmits.
use ion_dtn_terrestrial.Prelude.{
  ℕ, ◌+◌, ◌-◌, ◌*◌, ◌≤◌, ◌==◌, Bool, true, false, List, [], ◌∷◌, length, Option, none, some, ◌≡◌,
  ◌∙◌, refl, ap, arith, leb, Bool-cases, inl, inr, All, subst, sym, ◌++◌, if◌then◌else◌, ◌&&◌,
}
use ion_dtn_terrestrial.Prelude.Bits.{Bytes}
use ion_dtn_terrestrial.Ltp.Engine.State.{Timespec}
use ion_dtn_terrestrial.Beacon.Frame.{initialised}
use ion_dtn_terrestrial.Beacon.{
  Coordinate, named, finish, frame_position, beacon_init, Beacon, beacon_transmit, beacon_is_due,
  beacon_get_timeout_ms, time_ms,
}
use ion_dtn_terrestrial.Commands.Beaconing.{
  Transmission, logged, due, transmit_if_due, interrupted, poll_failed, woken, BeaconRound,
  beacon_rounds, comment_or_default, send_beacon, after_first, start_beacon, cmd_beacon,
}

-- What write() returned is the length of the whole frame.
abbrev pub is_whole : Option ℕ → ℕ → Bool
is_whole none len = false
is_whole (some written) len = written == len

abbrev pub next_due_ms : Beacon → ℕ
next_due_ms state = time_ms state.last_tx + state.interval_sec * 1000

-- The beacon with its new time, if `sent`, and as it was otherwise.
abbrev pub marked : Beacon → Timespec → Bool → Beacon × List Timespec
marked state sent_time sent =
    if sent then (record state { last_tx = sent_time }, sent_time ∷ []) else (state, [])

past-leb : (a b : ℕ) → (a - b == 0) ≡ leb a b
past-leb a b = ground arith

due-leb :
    (state : Beacon) (now : Timespec)
    → state.initialized ≡ true
    → due (beacon_is_due state now) ≡ leb (next_due_ms state) (time_ms now)
unfolding beacon_is_due beacon_get_timeout_ms
due-leb state now on = rw on (past-leb (next_due_ms state) (time_ms now))

transmit-marked :
    (state : Beacon) (written : Option ℕ) (sent_time : Timespec)
    → state.initialized ≡ true
    → logged (beacon_transmit state written sent_time) sent_time
      ≡ marked state sent_time (is_whole written (length state.kiss_frame))
unfolding beacon_transmit
transmit-marked state none sent_time on = refl
transmit-marked state (some written) sent_time on =
    elim (Bool-cases (written == length state.kiss_frame)) [
      | inl whole ↦ rw (on, whole) refl
      | inr part ↦ rw (on, part) refl
    ]

-- A round transmits exactly if the interval has passed since the last transmission and the whole
-- frame is written; then, the time behind the write is the time of the last transmission. Nothing
-- else of an initialised beacon changes.
pub transmit_if_due-marked :
    (state : Beacon) (now : Timespec) (t : Transmission)
    → state.initialized ≡ true
    → transmit_if_due state now t
      ≡ marked state t.sent_time
          (leb (next_due_ms state) (time_ms now) && is_whole t.written (length state.kiss_frame))
unfolding transmit_if_due
transmit_if_due-marked state now t on = elim (Bool-cases (leb (next_due_ms state) (time_ms now))) [
  | inl past ↦ rw (due-leb state now on, past) (transmit-marked state t.written t.sent_time on)
  | inr early ↦ rw (due-leb state now on, early) refl
]

-- From `previous` on, each time is at least the interval after the one before.
abbrev pub AreSpaced : ℕ → Timespec → List Timespec → Type 0
AreSpaced interval_ms previous [] = Unit {0}
AreSpaced interval_ms previous (t ∷ times) =
    (time_ms previous + interval_ms ≤ time_ms t) × AreSpaced interval_ms t times

-- write() takes its time: the clock behind it is not before the clock in front of it.
abbrev pub IsMonotonic : BeaconRound → Type 0
IsMonotonic (polled, now, t) = time_ms now ≤ time_ms t.sent_time

-- What a transmission leaves to the rounds behind it.
marked-AreSpaced :
    (state : Beacon) (sent_time : Timespec) (sent : Bool) (later : Beacon → List Timespec)
    → (sent ≡ true → next_due_ms state ≤ time_ms sent_time)
    → ((next : Beacon)
        → next.initialized ≡ state.initialized
        → next.interval_sec ≡ state.interval_sec
        → AreSpaced (state.interval_sec * 1000) next.last_tx (later next))
    → AreSpaced
        (state.interval_sec * 1000)
        state.last_tx
        ((marked state sent_time sent).1 ++ later (marked state sent_time sent).0)
marked-AreSpaced state sent_time true later far rest = (far refl, rest _ refl refl)
marked-AreSpaced state sent_time false later far rest = rest state refl refl

rounds-AreSpaced :
    (state : Beacon) (rounds : List BeaconRound)
    → state.initialized ≡ true
    → All IsMonotonic rounds
    → AreSpaced (state.interval_sec * 1000) state.last_tx (beacon_rounds state rounds).1
unfolding beacon_rounds
rounds-AreSpaced state [] on h = tt
rounds-AreSpaced state ((interrupted, now, t) ∷ rounds) on (h, hs) =
    rounds-AreSpaced state rounds on hs
rounds-AreSpaced state ((poll_failed, now, t) ∷ rounds) on (h, hs) = tt
rounds-AreSpaced state ((woken, now, t) ∷ rounds) on (h, hs) =
    let sent =
      leb (next_due_ms state) (time_ms now) && is_whole t.written (length state.kiss_frame) in
    subst
      (λ (r : Beacon × List Timespec).
        AreSpaced (state.interval_sec * 1000) state.last_tx (r.1 ++ (beacon_rounds r.0 rounds).1))
      (sym (transmit_if_due-marked state now t on))
      (marked-AreSpaced state t.sent_time sent (λ next. (beacon_rounds next rounds).1)
        (λ yes. ground arith)
        (λ next same every.
          subst (λ n. AreSpaced (n * 1000) next.last_tx (beacon_rounds next rounds).1) every
            (rounds-AreSpaced next rounds (same ∙ on) hs)))

-- A beacon that is set up transmits at this interval.
abbrev IsSetUp : ℕ → Beacon → Type 0
IsSetUp interval_sec state = (state.initialized ≡ true) × (state.interval_sec ≡ interval_sec)

finish-IsSetUp :
    (state : Beacon) (made : Option Bytes) {end : Beacon}
    → finish state made ≡ (end, true)
    → IsSetUp state.interval_sec end
unfolding finish
finish-IsSetUp state none e = cc
finish-IsSetUp state (some kiss_frame) e = (cc, cc)

frame_position-IsSetUp :
    (state : Beacon) (position : Option Bytes) {end : Beacon}
    → frame_position state position ≡ (end, true)
    → IsSetUp state.interval_sec end
unfolding frame_position
frame_position-IsSetUp state none e = cc
frame_position-IsSetUp state (some info) e =
    finish-IsSetUp (record state { position_info = info }) _ e

transmit-IsSetUp :
    (interval_sec : ℕ) (state : Beacon) (written : Option ℕ) (sent_time : Timespec) {next : Beacon}
    → IsSetUp interval_sec state
    → beacon_transmit state written sent_time ≡ (next, true)
    → IsSetUp interval_sec next × (next.last_tx ≡ sent_time)
unfolding beacon_transmit
transmit-IsSetUp interval_sec state none sent_time h e = cc
transmit-IsSetUp interval_sec state (some written) sent_time h e =
    elim (Bool-cases (written == length state.kiss_frame)) [
      | inl whole ↦ let sent = rw (h.0, whole) at e in ((cc, cc), cc)
      | inr part ↦ let never = rw (h.0, part) at e in cc
    ]

-- The first time is free.
abbrev pub FirstThenSpaced : ℕ → List Timespec → Type 0
FirstThenSpaced interval_ms [] = Unit {0}
FirstThenSpaced interval_ms (t ∷ times) = AreSpaced interval_ms t times

after_first-Spaced :
    (interval_sec : ℕ) (sent_time : Timespec) (rounds : List BeaconRound) (sent : Beacon × Bool)
    → All IsMonotonic rounds
    → (sent.1 ≡ true → IsSetUp interval_sec sent.0 × (sent.0.last_tx ≡ sent_time))
    → FirstThenSpaced (interval_sec * 1000) (after_first sent_time rounds sent).1
after_first-Spaced interval_sec sent_time rounds (state, false) h set = tt
after_first-Spaced interval_sec sent_time rounds (state, true) h set =
    let ((on, every), last) = set refl in
    subst (λ n. AreSpaced (n * 1000) sent_time (beacon_rounds state rounds).1) every
      (subst (λ t. AreSpaced (state.interval_sec * 1000) t (beacon_rounds state rounds).1) last
        (rounds-AreSpaced state rounds on h))

start_beacon-Spaced :
    (interval_sec : ℕ) (initial : Transmission) (rounds : List BeaconRound) (made : Beacon × Bool)
    → All IsMonotonic rounds
    → (made.1 ≡ true → IsSetUp interval_sec made.0)
    → FirstThenSpaced (interval_sec * 1000) (start_beacon initial rounds made).1
start_beacon-Spaced interval_sec initial rounds (state, false) h set = tt
start_beacon-Spaced interval_sec initial rounds (state, true) h set =
    after_first-Spaced interval_sec initial.sent_time rounds (send_beacon state initial) h (λ sent.
      transmit-IsSetUp interval_sec state initial.written initial.sent_time (set refl)
        (ap (λ ok. ((send_beacon state initial).0, ok)) sent))

-- Between two transmissions of cmd_beacon at least the interval passes on a clock that does not run
-- backwards during a write, whatever input, signals and failing writes do to the loop.
pub cmd_beacon-Spaced :
    (state : Beacon) (callsign : Bytes) (lat lon : Coordinate) (comment : Option Bytes)
    (interval_sec : ℕ) (initial : Transmission) (rounds : List BeaconRound)
    → All IsMonotonic rounds
    → FirstThenSpaced
        (interval_sec * 1000)
        (cmd_beacon state callsign lat lon comment interval_sec initial rounds).1
unfolding cmd_beacon
cmd_beacon-Spaced state callsign lat lon comment interval_sec initial rounds h =
    let text = comment_or_default comment in
    let made = beacon_init state callsign lat lon text interval_sec in
    start_beacon-Spaced interval_sec initial rounds made h (λ ok.
      frame_position-IsSetUp (named callsign text interval_sec) _
        (initialised state callsign lat lon text interval_sec (ap (λ b. (made.0, b)) ok)))

-- ===== src/Beacon/Runs.antt =====
-- Runs of kiss-interface/beacon.c at a concrete beacon, and its theorems applied at it.
use ion_dtn_terrestrial.Prelude.{true, false, [], ◌∷◌, some, ◌≡◌, refl}
use ion_dtn_terrestrial.Prelude.Bits.{Bytes}
use ion_dtn_terrestrial.Kiss.{kiss_encode}
use ion_dtn_terrestrial.Ax25.{ax25_build_frame}
use ion_dtn_terrestrial.Ltp.Engine.State.{Timespec}
use ion_dtn_terrestrial.Beacon.{
  Coordinate, valid_callsign, Beacon, zeroed, beacon_init, beacon_transmit, beacon_get_timeout_ms,
  beacon_is_due,
}

-- "G4DPZ-9"
abbrev pub callsign : Bytes
callsign = b'G' ∷ b'4' ∷ b'D' ∷ b'P' ∷ b'Z' ∷ b'-' ∷ b'9' ∷ []

ssid_16_is_refused : valid_callsign (b'G' ∷ b'4' ∷ b'-' ∷ b'1' ∷ b'6' ∷ []) ≡ false
unfolding valid_callsign
ssid_16_is_refused = refl

-- 51 degrees north, and a little less than 1 degree west.
abbrev pub lat : Coordinate
lat = record { in_range = true; negative = false; degrees = 51; hundredths = 0 }

abbrev pub lon : Coordinate
lon = record { in_range = true; negative = true; degrees = 0; hundredths = 6000 }

abbrev set_up : Beacon
unfolding beacon_init kiss_encode ax25_build_frame
set_up = (beacon_init zeroed callsign lat lon [] 120).0

init_works : beacon_init zeroed callsign lat lon [] 120 ≡ (set_up, true)
unfolding beacon_init kiss_encode ax25_build_frame
init_works = refl

abbrev small : Beacon
small = record zeroed {
  kiss_frame = 0xC0 ∷ 0x00 ∷ 0xC0 ∷ [];
  interval_sec = 120;
  initialized = true;
}

abbrev now : Timespec
now = record { tv_sec = 100; tv_nsec = 500000000 }

abbrev later : Timespec
later = record { tv_sec = 150; tv_nsec = 0 }

sends : beacon_transmit small (some 3) now ≡ (record small { last_tx = now }, true)
unfolding beacon_transmit
sends = refl

due_after_120_seconds : beacon_is_due (record small { last_tx = now }) later ≡ some false
unfolding beacon_is_due
due_after_120_seconds = refl

timeout_of_the_rest : beacon_get_timeout_ms (record small { last_tx = now }) later ≡ some 70500
unfolding beacon_get_timeout_ms
timeout_of_the_rest = refl

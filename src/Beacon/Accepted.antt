-- ===== src/Beacon/Accepted.antt =====
-- The beacons that beacon_init of beacon.c accepts, from the callsign to the frame.
use ion_dtn_terrestrial.Beacon.{Beacon}

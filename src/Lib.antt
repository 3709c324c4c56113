-- ===== src/Lib.antt =====
-- The delay-tolerant networking stack for amateur radio links of kiss-interface/: bundles and LTP
-- segments travel in AX.25 frames inside KISS frames, over a serial line to a TNC.
--
-- The parts and the files that model them:
-- - Kiss, Kiss/: kiss.c, KISS frames. `kiss_encode` writes a frame, `kiss_decoder_feed` takes one
--   byte and `feed_all` is the caller's loop over the bytes that it read.
-- - Nrzi, Nrzi/: nrzi.c, the bits of a frame on the air: check sequence, bit stuffing, flags, NRZI.
-- - Demod, Demod/: afsk_demod.c from a bit of the line on: `afsk_demod_feed_bit` finds frames between
--   flags, for either polarity. What stands in memory behind its array `frame` is a parameter.
-- - Sdnv, Sdnv/: sdnv.c, the self-delimiting numbers of LTP.
-- - Buffer: the way in which ltp.c and bp.c call one encoder after the other on the rest of a buffer.
-- - Ltp/Types, Ltp/Encode, Ltp/Decode: the segments of ltp.h and their encoders and decoders.
--   Ltp/Wire and Ltp/ControlWire give the wire format, Ltp/RoundTrip and Ltp/ControlRoundTrip
--   decode it again.
-- - Ltp/RecvMap: `ltp_recv_map_add_claim`, the ranges that have been received.
-- - Ax25, Ax25/: ax25.c, the address fields and UI frames.
-- - Ltp/Engine: the engine of ltp.c. Ltp/Engine/State is its record; Timers, Endpoints, Output,
--   Import, Receive, Export, Process and Fire hold its functions, by what they are about. `Link` says which
--   writes the port accepts, and `now` is the clock during a call. Reassembly, Segmentation and
--   InOrder compare the two ends of a session with the block, Missing a report with what is sent
--   again, and Waiting the timers with the wait for them; Frame, Delivery, Reception, Genuine,
--   Sending and Reach follow the import sessions through every call of the engine. Run is the event
--   loop `ltp_engine_run`, round by round, and Listen takes it apart into those calls.
-- - Cbor, Cbor/: cbor.c, the data items of bundles.
-- - Bp, Bp/: bp.c. Bp/Encode and Bp/Decode hold the encoders and decoders, Bp/Wire gives the wire
--   format of bundles and fragments, and Bp/Items and Bp/RoundTrip decode it again. Bp/Reassembly
--   holds `bp_reassembly_add`, with Counting and Stored (the arrays of the context), Complete
--   (fragments of one bundle) and Bounds (any fragments).
-- - Transfer, Transfer/: of main.c, `cmd_bp_send`, which sends data as a bundle or in fragments, and
--   `bp_recv_block_cb`, which receives them. The LTP engine and the line between them are a
--   parameter, `deliver`, and so are the files of --outdir that fopen opens; Transfer/Fragments and Transfer/Delivery take one that calls the callback
--   once for each block, and Transfer/Sizes bounds the lengths of bundles.
-- - Ping, Ping/: ping.c, the payload of a ping.
-- - Beacon, Beacon/: beacon.c, the position beacon. A coordinate is given by
--   its sign, whole degrees and minutes in hundredths, and printed from these.
-- - Ax25/Callsign says what an address keeps of a callsign, Ax25/Exchange what the receiver of a
--   frame reads and which frame its reply is; Beacon/Callsigns and Beacon/Accepted are about the
--   callsigns and the beacons that beacon_init accepts.
-- - Aprs, Aprs/: aprs.c, which frames are APRS packets, and their positions.
-- - Serial, Serial/: serial.c, the device string and the settings of the TNC.
-- - Commands, Commands/: of main.c, `cmd_send`, `cmd_receive` and `cmd_echo`; Commands/Ping holds
--   `cmd_ping`, Commands/Beaconing `cmd_beacon`, Commands/Ltp the LTP commands and the loops of
--   main() that run beside a beacon, and Commands/Options `parse_args` and `validate_args`. What
--   poll, read, write and the clock yield is given, call by call or round by round. Transmission
--   is what several calls of `cmd_send` put on the line; Echo and Answers put stations together.
--   `strip_in_buffers` is a call of `ax25_strip_frame` with the 9-byte buffers of these commands:
--   what a callsign that does not fit leaves behind is the parameter `overflown`.
-- Each part keeps its runs and the instances of its theorems in a module Runs, the engine in
-- SegmentRuns and TimerRuns too, the commands in StationRuns.
--
-- Conventions. A buffer is the list of its bytes, and a pointer with an offset is the rest of the
-- list. A function that returns -1 gives `none`, and else the value that it would store. Pointer
-- arguments are valid: tests for NULL stand only where NULL is a value that the program uses.
-- Numbers are unbounded, so each sum that can pass 2^64 has its `% 2 ^ 64`; buffers have fewer
-- than 2^31 bytes where a length is returned as an `int`. What a failed encoder leaves behind in
-- the output buffer is not modelled, since no caller reads it. A loop is a recursion on a list, or,
-- where ltp.c cuts a range into segments, on the number of bytes of the range: each round takes one
-- byte at least, so that these rounds are enough.
--
-- Not modelled: the AFSK modulator and correlator and the SDR drivers and commands (floating-point
-- signal processing), what is printed beyond the fields of a packet, opening and closing the serial
-- port, getopt_long, the signal handlers and reading a file (system and library calls), round-trip
-- times, the loop of bp-recv beside a beacon, which repeats that of ltp-recv with another callback,
-- the ION convergence layer (threads and the ION library), and the GNU Radio graph.
pub mod Prelude
pub mod Kiss
pub mod Nrzi
pub mod Demod
pub mod Buffer
pub mod Sdnv
pub mod Ax25
pub mod Ltp
pub mod Cbor
pub mod Bp
pub mod Transfer
pub mod Ping
pub mod Beacon
pub mod Commands
pub mod Serial
pub mod Aprs

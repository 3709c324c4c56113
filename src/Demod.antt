-- ===== src/Demod.antt =====
-- The frame detector of kiss-interface/afsk_demod.c, from NRZI bits to frames. (How a bit is told from
-- the audio is floating-point signal processing and a parameter.)
pub mod Shift
pub mod Detection
pub mod Packing
pub mod Line
pub mod Frames
pub mod RoundTrip
mod Runs
use ion_dtn_terrestrial.Prelude.{
  ℕ, zero, suc, ◌+◌, ◌-◌, ◌*◌, ◌%◌, ◌/◌, ◌^◌, min, Bool, true, false, ◌&&◌, ◌||◌, ◌==◌, leb, ltb,
  not, if◌then◌else◌, List, [], ◌∷◌, ◌++◌, length, take, drop, Option, none, some, ◌>>=◌, ◌>>◌,
  fail_if, bit_or, bit_xor,
}
use ion_dtn_terrestrial.Prelude.Bits.{Bytes, shr, test_bit}
use ion_dtn_terrestrial.Nrzi.{Bitstream, nrzi_compute_fcs, nrzi_bit_destuff}

abbrev pub max_frame_bits : ℕ
max_frame_bits = 4096

abbrev pub demod_frame_bytes : ℕ
demod_frame_bytes = 330

abbrev pub flag : ℕ
flag = 0x7E

pub data DetState : Type 0 where
  hunt sync in_frame : DetState

-- One polarity's detector behind the NRZI code. `frame_bits` is the filled part of the array.
pub record Framer : Type 0 where
  pub det_state : DetState
  pub frame_bits : Bitstream
  pub shift_reg : ℕ

-- `(uint8_t)(destuffed[i * 8 + j] << j)` for j from j on, or'ed together.
unfoldable pub frame_byte : ℕ → ℕ → ℕ → Bitstream → ℕ
frame_byte zero j acc bits = acc
frame_byte (suc n) j acc [] = acc
frame_byte (suc n) j acc (b ∷ bits) = frame_byte n (j + 1) (bit_or acc (b * 2 ^ j % 256)) bits

unfoldable pub frame_bytes : ℕ → Bitstream → Bytes
unfolding frame_byte
frame_bytes zero bits = []
frame_bytes (suc n) bits = frame_byte 8 0 0 bits ∷ frame_bytes n (drop 8 bits)

-- The first n bytes that stand behind the array `frame`.
unfoldable pub read_behind : ℕ → (ℕ → ℕ) → Bytes
read_behind zero behind = []
read_behind (suc n) behind = behind 0 ∷ read_behind n (λ i. behind (suc i))

-- `frame[num_bytes - 2] | (frame[num_bytes - 1] << 8)`, given the bytes from num_bytes - 2 on.
abbrev pub rx_fcs : Bytes → ℕ
rx_fcs (low ∷ high ∷ rest) = bit_or low (high * 2 ^ 8)
rx_fcs _ = 0

-- The bits without the last seven, which are part of the flag.
unfoldable pub frame_content : Bitstream → Bitstream
frame_content frame_bits =
    let count = length frame_bits in take (if leb 7 count then count - 7 else count) frame_bits

-- From the destuffed bits to the frame for the callback. The array `frame` holds 330 bytes, and more
-- than those are read from what stands behind it.
unfoldable pub check_frame : (ℕ → ℕ) → Bitstream → Option Bytes
unfolding frame_bytes read_behind
check_frame behind destuffed = do
  fail_if (ltb (length destuffed) (16 * 8))
  let num_bytes = length destuffed / 8
  let frame =
      frame_bytes (min num_bytes demod_frame_bytes) destuffed
      ++ read_behind (num_bytes - demod_frame_bytes) behind
  let fcs_ok = rx_fcs (drop (num_bytes - 2) frame) == nrzi_compute_fcs (take (num_bytes - 2) frame)
  fail_if (not (leb 2 num_bytes && (fcs_ok && leb 16 (num_bytes - 2))))
  some (take (num_bytes - 2) frame)

-- "Closing flag".
unfoldable pub close_frame : (ℕ → ℕ) → Bitstream → Option Bytes
unfolding nrzi_bit_destuff frame_content check_frame
close_frame behind frame_bits = do
  destuffed ← nrzi_bit_destuff (frame_content frame_bits) max_frame_bits
  check_frame behind destuffed

-- The loop that counts ones from bit 0 up.
unfoldable pub count_ones : ℕ → ℕ → ℕ
count_ones zero reg = 0
count_ones (suc n) reg =
    let more = count_ones n (shr reg 1) in if test_bit reg 0 == 1 then 1 + more else 0

-- `(shift_reg >> 1) | (data_bit << 7)`
abbrev pub shift_in : ℕ → ℕ → ℕ
shift_in reg data_bit = bit_or (shr reg 1) (data_bit * 2 ^ 7)

-- "Accumulate frame bit", and the check for seven ones.
unfoldable pub accumulate : ℕ → ℕ → Bitstream → Framer
unfolding count_ones
accumulate reg data_bit frame_bits =
    let kept : Framer =
      if ltb (length frame_bits) max_frame_bits
      then record {
        det_state = in_frame;
        frame_bits = frame_bits ++ (data_bit ∷ []);
        shift_reg = reg;
      }
      else record { det_state = hunt; frame_bits = []; shift_reg = reg } in
    if leb 7 (count_ones 8 reg)
    then record { det_state = hunt; frame_bits = []; shift_reg = reg }
    else kept

-- The switch, after the register has been shifted to `reg`.
unfoldable pub detect_in : (ℕ → ℕ) → DetState → Bitstream → ℕ → ℕ → Framer × Option Bytes
unfolding close_frame accumulate
detect_in behind hunt frame_bits reg data_bit =
    if reg == flag
    then (record { det_state = sync; frame_bits = []; shift_reg = reg }, none)
    else (record { det_state = hunt; frame_bits = frame_bits; shift_reg = reg }, none)
detect_in behind sync frame_bits reg data_bit =
    if reg == flag
    then (record { det_state = sync; frame_bits = []; shift_reg = reg }, none)
    else (record { det_state = in_frame; frame_bits = data_bit ∷ []; shift_reg = reg }, none)
detect_in behind in_frame frame_bits reg data_bit =
    if reg == flag
    then (
      record { det_state = sync; frame_bits = []; shift_reg = reg },
      close_frame behind frame_bits,
    )
    else (accumulate reg data_bit frame_bits, none)

unfoldable pub detect : (ℕ → ℕ) → ℕ → Framer → Framer × Option Bytes
unfolding detect_in
detect behind data_bit f =
    detect_in behind f.det_state f.frame_bits (shift_in f.shift_reg data_bit) data_bit

-- One polarity's detector.
pub record Detector : Type 0 where
  pub framer : Framer
  pub prev_nrzi : ℕ

-- A call of the callback.
pub record Received : Type 0 where
  pub frame : Bytes
  pub polarity : ℕ

-- `received` lists the calls of the callback, oldest first.
pub record Demod : Type 0 where
  pub normal : Detector
  pub inverted : Detector
  pub received : List Received
  pub frames_decoded : ℕ

unfoldable pub feed_detector : (ℕ → ℕ) → ℕ → Detector → Detector × Option Bytes
unfolding detect
feed_detector behind nrzi_bit d =
    let (framer, frame) = detect behind (if nrzi_bit == d.prev_nrzi then 1 else 0) d.framer in
    (record { framer = framer; prev_nrzi = nrzi_bit }, frame)

-- The call of the callback for a frame, if there is one.
abbrev pub callback : Option Bytes → ℕ → List Received
callback none polarity = []
callback (some frame) polarity = record { frame = frame; polarity = polarity } ∷ []

abbrev pub report_frame : Option Bytes → ℕ → Demod → Demod
report_frame frame polarity d = record d {
  received = d.received ++ callback frame polarity;
  frames_decoded = d.frames_decoded + length (callback frame polarity);
}

unfoldable pub afsk_demod_feed_bit : (ℕ → ℕ) → ℕ → ℕ → Demod → Demod
afsk_demod_feed_bit behind nrzi_bit polarity d =
    let (normal, frame0) = feed_detector behind nrzi_bit d.normal in
    let (inverted, frame1) = feed_detector behind nrzi_bit d.inverted in
    if polarity == 0
    then report_frame frame0 0 (record d { normal = normal })
    else report_frame frame1 1 (record d { inverted = inverted })

-- The loop, on the values of afsk_demod_correlate for the bit periods of the audio. (The number of
-- frames that is returned is the growth of `frames_decoded`.)
unfoldable pub afsk_demod_process : (ℕ → ℕ) → Bitstream → Demod → Demod
afsk_demod_process behind [] d = d
afsk_demod_process behind (nrzi_bit ∷ bits) d =
    afsk_demod_process behind bits
      (afsk_demod_feed_bit behind (1 - nrzi_bit) 1 (afsk_demod_feed_bit behind nrzi_bit 0 d))

abbrev pub idle_detector : Detector
idle_detector = record {
  framer = record { det_state = hunt; frame_bits = []; shift_reg = 0 };
  prev_nrzi = 0;
}

abbrev pub afsk_demod_init : Demod
afsk_demod_init = record {
  normal = idle_detector;
  inverted = idle_detector;
  received = [];
  frames_decoded = 0;
}

abbrev pub afsk_demod_reset : Demod → Demod
afsk_demod_reset d = record d { normal = idle_detector; inverted = idle_detector }

-- ===== src/Serial.antt =====
-- kiss-interface/serial.c: the name of a serial device with its baud rate, and the settings of the
-- TNC. Opening and closing the port are system calls.
pub mod Device
pub mod Tnc
mod Runs
use ion_dtn_terrestrial.Prelude.{
  ℕ, ◌+◌, ◌-◌, ◌*◌, ◌/◌, ◌%◌, ◌^◌, min, Bool, true, false, not, ◌&&◌, ◌||◌, ◌==◌, leb, ltb,
  if◌then◌else◌, List, [], ◌∷◌, ◌++◌, length, Option, none, some, ◌>>=◌, ◌>>◌, fail_if,
}
use ion_dtn_terrestrial.Prelude.Bits.{Bytes, low_bits}
use ion_dtn_terrestrial.Kiss.{kiss_build_cmd}
use ion_dtn_terrestrial.Ax25.{skip_spaces}

abbrev pub supported_bauds : List ℕ
supported_bauds = 1200 ∷ 9600 ∷ 19200 ∷ 38400 ∷ 57600 ∷ 115200 ∷ []

abbrev pub occurs : ℕ → List ℕ → Bool
occurs baud [] = false
occurs baud (b ∷ bauds) = b == baud || occurs baud bauds

unfoldable pub baud_is_supported : ℕ → Bool
baud_is_supported baud = occurs baud supported_bauds

-- `strrchr(arg, ':')`: what stands before the last colon, and what stands behind it.
unfoldable pub split_colon : Bytes → Option (Bytes × Bytes)
split_colon [] = none
split_colon (c ∷ s) = elim (split_colon s) [
  | some (before, behind) ↦ some (c ∷ before, behind)
  | none ↦ if c == b':' then some ([], s) else none
]

-- The digits of a number, up to the end of the text; `none` if anything else stands there.
unfoldable pub all_digits : ℕ → Bytes → Option ℕ
all_digits acc [] = some acc
all_digits acc (c ∷ s) =
    let rest = all_digits (acc * 10 + (c - b'0')) s in
    if leb b'0' c && leb c b'9' then rest else none

-- A number that has digits and is above 0. The greatest `long` stands for what is too large.
abbrev pub positive_long : Bytes → Option ℕ
positive_long digits = do
  fail_if (length digits == 0)
  b ← all_digits 0 digits
  fail_if (b == 0)
  some (min b (2 ^ 63 - 1))

abbrev pub signed_long : Bytes → Option ℕ
signed_long [] = none
signed_long (c ∷ s) =
    if c == b'-' then none else if c == b'+' then positive_long s else positive_long (c ∷ s)

-- `strtol`, and the tests behind it.
unfoldable pub baud_number : Bytes → Option ℕ
unfolding all_digits skip_spaces
baud_number text = signed_long (skip_spaces text)

abbrev pub default_baud : ℕ
default_baud = 9600

-- `(int)b`, which is a supported rate exactly if its low 32 bits are.
abbrev pub supported_or_default : ℕ → ℕ
supported_or_default b = if baud_is_supported (low_bits b 32) then low_bits b 32 else default_baud

-- The whole argument as the device, at the default rate.
abbrev pub whole_device : Bytes → ℕ → Option (Bytes × ℕ)
whole_device arg dev_size = do fail_if (leb dev_size (length arg)); some (arg, default_baud)

abbrev pub device_and_baud : Bytes → ℕ → Bytes → Option ℕ → Option (Bytes × ℕ)
device_and_baud arg dev_size device none = whole_device arg dev_size
device_and_baud arg dev_size device (some b) = some (device, supported_or_default b)

abbrev pub at_colon : Bytes → ℕ → Option (Bytes × Bytes) → Option (Bytes × ℕ)
at_colon arg dev_size none = whole_device arg dev_size
at_colon arg dev_size (some (before, behind)) =
    let named = do
      fail_if (leb dev_size (length before))
      device_and_baud arg dev_size before (baud_number behind)
    in if length before == 0 || length behind == 0 then whole_device arg dev_size else named

-- The device and the rate.
unfoldable pub serial_parse_device : Bytes → ℕ → Option (Bytes × ℕ)
unfolding split_colon baud_number baud_is_supported
serial_parse_device arg dev_size = do
  fail_if (dev_size == 0)
  at_colon arg dev_size (split_colon arg)

-- Milliseconds, an `int` given by its sign and its magnitude, in units of 10 ms from 0 to 255.
abbrev pub tnc_units : Bool × ℕ → ℕ
tnc_units (negative, magnitude) = if negative then 0 else min (magnitude / 10) 255

-- `written` is what write() returns, with `none` for -1.
abbrev wrote_all : Option ℕ → ℕ → Bool
wrote_all none len = false
wrote_all (some written) len = written == len

-- One command: what is handed to write() if it can be built, and whether that succeeds.
unfoldable pub write_cmd : (Bytes → Option ℕ) → Option Bytes → List Bytes × Bool
write_cmd write none = ([], false)
write_cmd write (some cmd_buf) = (cmd_buf ∷ [], wrote_all (write cmd_buf) (length cmd_buf))

abbrev then_cmd : List Bytes × Bool → List Bytes × Bool → List Bytes × Bool
then_cmd (cmds, ok) (later, later_ok) = if ok then (cmds ++ later, later_ok) else (cmds, false)

-- The buffers that are handed to write(), whose results are given for each call, and whether 0 is
-- returned.
unfoldable pub serial_configure_tnc :
    (Bytes → Option ℕ) → (Bytes → Option ℕ) → Bool × ℕ → Bool × ℕ → List Bytes × Bool
unfolding write_cmd
serial_configure_tnc write_first write_second txdelay_ms txtail_ms =
    then_cmd (write_cmd write_first (kiss_build_cmd 0x01 (tnc_units txdelay_ms) 4))
      (write_cmd write_second (kiss_build_cmd 0x04 (tnc_units txtail_ms) 4))

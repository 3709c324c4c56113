-- ===== src/Serial/Runs.antt =====
-- Runs of serial.c at concrete inputs.
use ion_dtn_terrestrial.Prelude.{[], ◌∷◌, ◌++◌, some, false, ◌≡◌, refl, arith}
use ion_dtn_terrestrial.Prelude.Bits.{Bytes}
use ion_dtn_terrestrial.Ax25.{skip_spaces, is_space}
use ion_dtn_terrestrial.Kiss.{kiss_build_cmd}
use ion_dtn_terrestrial.Serial.{
  all_digits, baud_is_supported, serial_parse_device, serial_configure_tnc,
}
use ion_dtn_terrestrial.Serial.Device.{IsDevice, serial_parse_device-IsDevice, parse_device-colon}
use ion_dtn_terrestrial.Serial.Tnc.{takes_all, command_frame}

abbrev port_name : Bytes
port_name = b'/' ∷ b'd' ∷ b'e' ∷ b'v' ∷ b'/' ∷ b't' ∷ []

abbrev digits_1200 : Bytes
digits_1200 = b'1' ∷ b'2' ∷ b'0' ∷ b'0' ∷ []

parse_device-colon_example :
    serial_parse_device (port_name ++ (b':' ∷ digits_1200)) 256 ≡ some (port_name, 1200)
unfolding all_digits baud_is_supported
parse_device-colon_example =
    parse_device-colon port_name digits_1200 256 1200 (omega arith) (omega arith) (omega arith)
      (ground arith) refl refl

-- A rate that is not in the table becomes 9600, and what is not a number belongs to the device.
rate_300 :
    serial_parse_device (port_name ++ (b':' ∷ b'3' ∷ b'0' ∷ b'0' ∷ [])) 256 ≡ some (port_name, 9600)
unfolding serial_parse_device is_space skip_spaces
rate_300 = refl

no_number :
    serial_parse_device (port_name ++ (b':' ∷ b'x' ∷ [])) 256
    ≡ some (port_name ++ (b':' ∷ b'x' ∷ []), 9600)
unfolding serial_parse_device is_space skip_spaces
no_number = refl

-- 2^32 + 1200 is 1200 after the conversion to an int.
wrapped_rate :
    serial_parse_device
      (port_name
        ++ (b':' ∷ b'4' ∷ b'2' ∷ b'9' ∷ b'4' ∷ b'9' ∷ b'6' ∷ b'8' ∷ b'4' ∷ b'9' ∷ b'6' ∷ []))
      256
    ≡ some (port_name, 1200)
unfolding serial_parse_device is_space skip_spaces
wrapped_rate = refl

serial_parse_device-IsDevice_example : IsDevice 256 (port_name, 9600)
serial_parse_device-IsDevice_example =
    serial_parse_device-IsDevice (port_name ++ (b':' ∷ b'3' ∷ b'0' ∷ b'0' ∷ [])) 256 rate_300

-- A delay of 1920 ms is 192 units, the code of FEND.
delay_1920 :
    (serial_configure_tnc takes_all takes_all (false, 1920) (false, 300)).0
    ≡ command_frame 0x01 0xC0 ∷ command_frame 0x04 30 ∷ []
unfolding serial_configure_tnc kiss_build_cmd
delay_1920 = refl

-- ===== src/Serial/Device.antt =====
-- `serial_parse_device` of kiss-interface/serial.c.
use ion_dtn_terrestrial.Prelude.{
  ℕ, ◌≤◌, ◌<◌, ◌==◌, ◌||◌, true, false, leb, [], ◌∷◌, ◌++◌, length, Option, none, some, ◌≡◌, refl,
  ap, arith, Bool-cases, inl, inr, >>=-eq-some, fail_if, All, subst, min, ◌^◌, ◌-◌,
}
use ion_dtn_terrestrial.Prelude.Bits.{Bytes, low_bits}
use ion_dtn_terrestrial.Ax25.{skip_spaces, is_space}
use ion_dtn_terrestrial.Serial.{
  baud_is_supported, split_colon, all_digits, baud_number, whole_device, supported_or_default,
  device_and_baud, at_colon, serial_parse_device,
}

-- A device name that fits its buffer with the final NUL, and a rate of the table.
abbrev pub IsDevice : ℕ → Bytes × ℕ → Type 0
IsDevice dev_size (device, baud) = (length device < dev_size) × (baud_is_supported baud ≡ true)

supported-supported_or_default : (b : ℕ) → baud_is_supported (supported_or_default b) ≡ true
supported-supported_or_default b = elim (Bool-cases (baud_is_supported (low_bits b 32))) [
  | inl known ↦ rw known known
  | inr odd ↦ rw odd (unfold baud_is_supported in refl)
]

-- A result, if there is one, is a device.
abbrev IsDeviceOrNone : ℕ → Option (Bytes × ℕ) → Type 0
IsDeviceOrNone dev_size none = Unit {0}
IsDeviceOrNone dev_size (some result) = IsDevice dev_size result

whole_device-IsDevice :
    (arg : Bytes) (dev_size : ℕ) → IsDeviceOrNone dev_size (whole_device arg dev_size)
whole_device-IsDevice arg dev_size = elim (Bool-cases (leb dev_size (length arg))) [
  | inl long ↦ rw long tt
  | inr short ↦ rw short (ground (arith, short), unfold baud_is_supported in refl)
]

device_and_baud-IsDevice :
    (arg device : Bytes) (dev_size : ℕ) (b : Option ℕ)
    → leb dev_size (length device) ≡ false
    → IsDeviceOrNone dev_size (device_and_baud arg dev_size device b)
device_and_baud-IsDevice arg device dev_size none short = whole_device-IsDevice arg dev_size
device_and_baud-IsDevice arg device dev_size (some b) short =
    (ground (arith, short), supported-supported_or_default b)

at_colon-IsDevice :
    (arg : Bytes) (dev_size : ℕ) (parts : Option (Bytes × Bytes))
    → IsDeviceOrNone dev_size (at_colon arg dev_size parts)
at_colon-IsDevice arg dev_size none = whole_device-IsDevice arg dev_size
at_colon-IsDevice arg dev_size (some (before, behind)) =
    elim (Bool-cases (length before == 0 || length behind == 0)) [
      | inl odd ↦ rw odd (whole_device-IsDevice arg dev_size)
      | inr usual ↦ elim (Bool-cases (leb dev_size (length before))) [
        | inl long ↦ rw (usual, long) tt
        | inr short ↦
            rw (usual, short)
              (device_and_baud-IsDevice arg before dev_size (baud_number behind) short)
      ]
    ]

-- Whatever the argument, a device that is given fits its buffer, and the rate is one of the table.
pub serial_parse_device-IsDevice :
    (arg : Bytes) (dev_size : ℕ) {device : Bytes} {baud : ℕ}
    → serial_parse_device arg dev_size ≡ some (device, baud)
    → IsDevice dev_size (device, baud)
unfolding serial_parse_device
serial_parse_device-IsDevice arg dev_size e =
    let (u, room, e1) = >>=-eq-some (fail_if (dev_size == 0)) _ e in
    subst (IsDeviceOrNone dev_size) e1 (at_colon-IsDevice arg dev_size (split_colon arg))

-- The digits of a rate as they are typed.
abbrev pub IsDigit : ℕ → Type 0
IsDigit c = (b'0' ≤ c) × (c ≤ b'9')

split_colon-none : (s : Bytes) → All IsDigit s → split_colon s ≡ none
unfolding split_colon
split_colon-none [] h = refl
split_colon-none (c ∷ s) (digit, digits) =
    let other : (c == b':') ≡ false = ground arith in rw (split_colon-none s digits, other) refl

split_colon-append :
    (path digits : Bytes)
    → All IsDigit digits
    → split_colon (path ++ (b':' ∷ digits)) ≡ some (path, digits)
unfolding split_colon
split_colon-append [] digits h = rw (split_colon-none digits h) refl
split_colon-append (c ∷ path) digits h = rw (split_colon-append path digits h) refl

supported_bounds : (b : ℕ) → baud_is_supported b ≡ true → (0 < b) × (b ≤ 115200)
unfolding baud_is_supported
supported_bounds b h = ground arith

baud_number-digits :
    (c : ℕ) (digits : Bytes) {b : ℕ}
    → IsDigit c
    → all_digits 0 (c ∷ digits) ≡ some b
    → baud_is_supported b ≡ true
    → baud_number (c ∷ digits) ≡ some b
unfolding baud_number skip_spaces is_space
baud_number-digits c digits {b} digit value known =
    let bounds = supported_bounds b known in
    let no_space : is_space c ≡ false = ground arith in
    let no_minus : (c == b'-') ≡ false = ground arith in
    let no_plus : (c == b'+') ≡ false = ground arith in
    let positive : (b == 0) ≡ false = ground arith in
    let small : min b (2 ^ 63 - 1) ≡ b = omega (arith, bounds) in
    let some_digits : (length (c ∷ digits) == 0) ≡ false = ground arith in
    rw (no_space, no_minus, no_plus, some_digits, value, positive) (ap some small)

-- "path:rate", for any path that fits, colons in it or not, and a rate of the table in digits, is
-- taken apart again.
pub parse_device-colon :
    (path digits : Bytes) (dev_size b : ℕ)
    → 0 < length path
    → length path < dev_size
    → 0 < length digits
    → All IsDigit digits
    → all_digits 0 digits ≡ some b
    → baud_is_supported b ≡ true
    → serial_parse_device (path ++ (b':' ∷ digits)) dev_size ≡ some (path, b)
unfolding serial_parse_device
parse_device-colon path [] dev_size b some_path short some_digits digits value known =
    absurd (omega arith)
parse_device-colon path (c ∷ rest) dev_size b some_path short some_digits digits value known =
    let room : (dev_size == 0) ≡ false = ground arith in
    let usual : (length path == 0) ≡ false = ground arith in
    let behind : (length (c ∷ rest) == 0) ≡ false = ground arith in
    let fits : leb dev_size (length path) ≡ false = ground arith in
    let int_range : low_bits b 32 ≡ b = omega (arith, supported_bounds b known) in
    rw
      (
        room,
        split_colon-append path (c ∷ rest) digits,
        usual,
        behind,
        fits,
        baud_number-digits c rest digits.0 value known,
        int_range,
        known,
      )
      refl

-- ===== src/Ax25.antt =====
-- kiss-interface/ax25.c: callsigns and AX.25 UI frames. A C string is the list of its characters
-- without the final NUL, and a character is its code.
pub mod Frame
pub mod Callsign
pub mod Exchange
pub mod Runs
use ion_dtn_terrestrial.Prelude.{
  ℕ, zero, suc, ◌+◌, ◌-◌, ◌*◌, Bool, true, false, not, ◌%◌, ◌&&◌, ◌||◌, ◌==◌, leb, ltb,
  if◌then◌else◌, List, [], ◌∷◌, ◌++◌, map, length, take, drop, Option, none, some, ◌>>=◌, ◌>>◌,
  fail_if, bit_or,
}
use ion_dtn_terrestrial.Prelude.Bits.{Bytes, low_bits, shr}
use ion_dtn_terrestrial.Kiss.{max_payload}

abbrev pub addr_len : ℕ
addr_len = 7

abbrev pub hdr_len : ℕ
hdr_len = 16

abbrev pub max_info : ℕ
max_info = max_payload - hdr_len

-- `strchr(s, '-')`: what stands before the first dash, and what stands behind it.
unfoldable pub split_dash : Bytes → Bytes × Option Bytes
split_dash [] = ([], none)
split_dash (c ∷ s) =
    let (before, behind) = split_dash s in if c == b'-' then ([], some s) else (c ∷ before, behind)

unfoldable pub is_space : ℕ → Bool
is_space c = c == 32 || (leb 9 c && leb c 13)

unfoldable pub skip_spaces : Bytes → Bytes
skip_spaces [] = []
skip_spaces (c ∷ s) = if is_space c then skip_spaces s else c ∷ s

unfoldable pub digits_value : ℕ → Bytes → ℕ
digits_value acc [] = acc
digits_value acc (c ∷ s) =
    let rest = digits_value (acc * 10 + (c - b'0')) s in
    if leb b'0' c && leb c b'9' then rest else acc

-- `atoi`: whether the number has a minus sign, and its magnitude. (What does not fit an `int` is
-- undefined in C.)
unfoldable pub atoi_signed : Bytes → Bool × ℕ
atoi_signed [] = (false, 0)
atoi_signed (c ∷ s) =
    if c == b'-'
    then (true, digits_value 0 s)
    else if c == b'+'
    then (false, digits_value 0 s)
    else (false, digits_value 0 (c ∷ s))

unfoldable pub atoi : Bytes → Bool × ℕ
unfolding is_space skip_spaces digits_value atoi_signed
atoi s = atoi_signed (skip_spaces s)

-- `toupper` in the C locale.
unfoldable pub toupper : ℕ → ℕ
toupper c = if leb b'a' c && leb c b'z' then c - 32 else c

-- Bytes 0 to 5: the characters shifted left by one, padded with spaces to `n` of them.
unfoldable pub call_bytes : ℕ → Bytes → Bytes
unfolding toupper
call_bytes zero call = []
call_bytes (suc n) [] = (b' ' * 2) ∷ call_bytes n []
call_bytes (suc n) (c ∷ call) = (toupper c * 2 % 256) ∷ call_bytes n call

-- `ssid < 0 || ssid > 15`
abbrev ssid_refused : Bool × ℕ → Bool
ssid_refused (negative, magnitude) = (negative && ltb 0 magnitude) || ltb 15 magnitude

unfoldable pub parse_ssid : Option Bytes → Option ℕ
parse_ssid none = some 0
parse_ssid (some text) = do fail_if (ssid_refused (atoi text)); some (atoi text).1

-- Byte 6: `0x60 | ((uint8_t)(ssid & 0x0F) << 1) | (last ? 1 : 0)`
abbrev pub ssid_field : ℕ → Bool → ℕ
ssid_field ssid last = bit_or (bit_or 0x60 (low_bits ssid 4 * 2)) (if last then 1 else 0)

unfoldable pub ax25_encode_addr : Bytes → Bool → Option Bytes
unfolding split_dash atoi call_bytes parse_ssid
ax25_encode_addr callsign last = do
  let call = (split_dash callsign).0
  fail_if (length call == 0 || ltb 6 (length call))
  ssid ← parse_ssid (split_dash callsign).1
  some (call_bytes 6 call ++ (ssid_field ssid last ∷ []))

-- `call_len` trims trailing spaces.
unfoldable pub trim_spaces : Bytes → Bytes
trim_spaces [] = []
trim_spaces (c ∷ s) =
    let rest = trim_spaces s in if length rest == 0 && c == b' ' then [] else c ∷ rest

-- `%s` prints up to the first NUL.
unfoldable pub c_string : Bytes → Bytes
c_string [] = []
c_string (c ∷ s) = if c == 0 then [] else c ∷ c_string s

-- `%d` of a number below 16.
abbrev pub decimal : ℕ → Bytes
decimal n = if ltb n 10 then (b'0' + n) ∷ [] else b'1' ∷ (b'0' + (n - 10)) ∷ []

-- `addr[6]`, where the array has seven bytes.
abbrev pub ssid_byte : Bytes → ℕ
ssid_byte [] = 0
ssid_byte (b ∷ rest) = b

unfoldable pub ax25_decode_addr : Bytes → ℕ → Option Bytes
unfolding trim_spaces c_string
ax25_decode_addr addr out_size = do
  fail_if (ltb out_size 1)
  let call = trim_spaces (map (λ b. shr b 1) (take 6 addr))
  let ssid = low_bits (shr (ssid_byte (drop 6 addr)) 1) 4
  let text = c_string call ++ (b'-' ∷ decimal ssid)
  fail_if (leb out_size (length text))
  some text

unfoldable pub ax25_build_frame : Bytes → Bytes → Bytes → ℕ → Option Bytes
unfolding ax25_encode_addr
ax25_build_frame dst_call src_call info out_size = do
  fail_if (ltb max_info (length info))
  fail_if (ltb out_size (hdr_len + length info))
  dst ← ax25_encode_addr dst_call false
  src ← ax25_encode_addr src_call true
  some (dst ++ (src ++ (0x03 ∷ 0xF0 ∷ info)))

-- The source, the destination and the information field. `frame` has 16 bytes where it is indexed.
abbrev pub control_byte : Bytes → ℕ
control_byte frame = ssid_byte (drop 14 frame)

abbrev pub pid_byte : Bytes → ℕ
pid_byte frame = ssid_byte (drop 15 frame)

unfoldable pub ax25_strip_frame : Bytes → Option (Bytes × Bytes × Bytes)
unfolding ax25_decode_addr
ax25_strip_frame frame = do
  fail_if (ltb (length frame) hdr_len)
  fail_if (not (control_byte frame == 0x03))
  fail_if (not (pid_byte frame == 0xF0))
  dst ← ax25_decode_addr frame 12
  src ← ax25_decode_addr (drop addr_len frame) 12
  some (src, dst, drop hdr_len frame)

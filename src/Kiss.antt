-- ===== src/Kiss.antt =====
-- kiss-interface/kiss.c: KISS framing, the byte-at-a-time decoder and TNC command frames.
-- A buffer is the list of the bytes in it. An encoder gives the bytes that it wrote to `out`, or
-- `none` where the C function returns -1; `pos` is the number of bytes written so far.
pub mod Encode
pub mod Decode
pub mod RoundTrip
mod Runs
use ion_dtn_terrestrial.Prelude.{
  ℕ, ◌+◌, ◌-◌, ◌%◌, Bool, true, false, not, ◌==◌, leb, ltb, if◌then◌else◌, List, [], ◌∷◌, ◌++◌,
  length, Option, none, some, ◌>>=◌, ◌>>◌, fail_if,
}
use ion_dtn_terrestrial.Prelude.Bits.{Bytes, low_bits}

abbrev pub fend : ℕ
fend = 0xC0

abbrev pub fesc : ℕ
fesc = 0xDB

abbrev pub tfend : ℕ
tfend = 0xDC

abbrev pub tfesc : ℕ
tfesc = 0xDD

abbrev pub max_payload : ℕ
max_payload = 65535

-- The loop over the payload, from `pos` on, and what it writes.
kiss_encode_loop : Bytes → ℕ → ℕ → Option Bytes
kiss_encode_loop [] pos out_size = some []
kiss_encode_loop (b ∷ payload) pos out_size =
    let escaped_fend : Option Bytes = do
      fail_if (ltb out_size (pos + 2))
      rest ← kiss_encode_loop payload (pos + 2) out_size
      some (fesc ∷ tfend ∷ rest)
    in let escaped_fesc : Option Bytes = do
      fail_if (ltb out_size (pos + 2))
      rest ← kiss_encode_loop payload (pos + 2) out_size
      some (fesc ∷ tfesc ∷ rest)
      in let plain : Option Bytes = do
        fail_if (leb out_size pos)
        rest ← kiss_encode_loop payload (pos + 1) out_size
        some (b ∷ rest)
        in if b == fend then escaped_fend else if b == fesc then escaped_fesc else plain

unfoldable pub kiss_encode : Bytes → ℕ → Option Bytes
unfolding kiss_encode_loop
kiss_encode payload out_size = do
  fail_if (leb out_size 0)
  fail_if (leb out_size 1)
  body ← kiss_encode_loop payload 2 out_size
  fail_if (leb out_size (2 + length body))
  some (fend ∷ 0x00 ∷ (body ++ (fend ∷ [])))

-- `buf` is the part of the array that is filled, so `len` is its length.
pub record Decoder : Type 0 where
  pub buf : Bytes
  pub in_frame : Bool
  pub escape : Bool

abbrev pub kiss_decoder_init : Decoder
kiss_decoder_init = record { buf = []; in_frame = false; escape = false }

-- The return value 0, 1 with the bytes copied to `out`, and -1.
pub data Outcome : Type 0 where
  more : Outcome
  frame : Bytes → Outcome
  error : Outcome

abbrev pub len : Decoder → ℕ
len dec = length dec.buf

-- `buf[0]` and `buf + 1`; only reached with `len` above 0.
abbrev command : Bytes → ℕ
command [] = 0
command (c ∷ rest) = c

abbrev payload_of : Bytes → Bytes
payload_of [] = []
payload_of (c ∷ rest) = rest

-- `len = 0; in_frame = 1; escape = 0;`
abbrev pub ready : Decoder
ready = record { buf = []; in_frame = true; escape = false }

-- The branch on `byte == KISS_FEND`.
feed_fend : Decoder → ℕ → Decoder × Outcome
feed_fend dec out_size =
    if not dec.in_frame
    then (ready, more)
    else if len dec == 0
    then (dec, more)
    else if not (low_bits (command dec.buf) 4 == 0)
    then (ready, error)
    else if ltb out_size (len dec - 1)
    then (ready, error)
    else (ready, frame (payload_of dec.buf))

-- The end of the function, from "Store byte" on.
store_byte : Decoder → ℕ → Decoder × Outcome
store_byte dec byte =
    if leb (max_payload + 1) (len dec)
    then (kiss_decoder_init, error)
    else (record dec { buf = dec.buf ++ (byte ∷ []) }, more)

unescape : ℕ → ℕ
unescape byte = if byte == tfend then fend else if byte == tfesc then fesc else byte

unfoldable pub kiss_decoder_feed : Decoder → ℕ → ℕ → Decoder × Outcome
unfolding feed_fend store_byte unescape
kiss_decoder_feed dec byte out_size =
    if byte == fend
    then feed_fend dec out_size
    else if not dec.in_frame
    then (dec, more)
    else if dec.escape
    then store_byte (record dec { escape = false }) (unescape byte)
    else if byte == fesc
    then (record dec { escape = true }, more)
    else store_byte dec byte

-- The caller's loop over the bytes read: what it sees is the calls that do not return 0.
abbrev pub noted : Outcome → List Outcome → List Outcome
noted more events = events
noted (frame payload) events = frame payload ∷ events
noted error events = error ∷ events

unfoldable pub feed_all : Decoder → Bytes → ℕ → Decoder × List Outcome
unfolding kiss_decoder_feed
feed_all dec [] out_size = (dec, [])
feed_all dec (byte ∷ bytes) out_size =
    let (dec', outcome) = kiss_decoder_feed dec byte out_size in
    let (last, events) = feed_all dec' bytes out_size in (last, noted outcome events)

unfoldable pub kiss_build_cmd : ℕ → ℕ → ℕ → Option Bytes
kiss_build_cmd cmd value out_size = do
  fail_if (ltb out_size 4)
  some (fend ∷ cmd ∷ value ∷ fend ∷ [])

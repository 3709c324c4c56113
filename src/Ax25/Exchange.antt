-- ===== src/Ax25/Exchange.antt =====
-- Frames of ax25.c between two stations: what the receiver reads, and the frame of its reply.
use ion_dtn_terrestrial.Prelude.{
  ℕ, ◌+◌, ◌≤◌, Bool, true, false, [], ◌∷◌, ◌++◌, length, some, ◌≡◌, ◌∙◌, refl, arith, length-append,
  sym, le→ltb,
}
use ion_dtn_terrestrial.Prelude.Bits.{Bytes}
use ion_dtn_terrestrial.Ax25.Frame.{length-call_bytes, frame_of, strip-frame_of}
use ion_dtn_terrestrial.Ax25.Callsign.{
  IsCallsign, parse_ssid_bounds, shown, base, address, decode-address, encode_addr-IsCallsign,
  encode-shown,
}
use ion_dtn_terrestrial.Ax25.{
  hdr_len, max_info, split_dash, ax25_decode_addr, ax25_build_frame, ax25_strip_frame, call_bytes,
}

-- The frame that carries `info`.
abbrev pub ui_frame : Bytes → ℕ → Bytes → ℕ → Bytes → Bytes
ui_frame dst d src s info = frame_of (address (base dst) d false) (address (base src) s true) info

build-ui_frame :
    {dst src : Bytes} {d s : ℕ} (info : Bytes) (out_size : ℕ)
    → IsCallsign dst d
    → IsCallsign src s
    → length info ≤ max_info
    → hdr_len + length info ≤ out_size
    → ax25_build_frame dst src info out_size ≡ some (ui_frame dst d src s info)
unfolding ax25_build_frame
build-ui_frame info out_size from to short room =
    rw
      (
        le→ltb max_info (length info) short,
        le→ltb out_size (hdr_len + length info) room,
        encode_addr-IsCallsign false from,
        encode_addr-IsCallsign true to,
      )
      refl

length-address : (call : Bytes) (ssid : ℕ) (last : Bool) → length (address call ssid last) ≡ 7
length-address call ssid last =
    omega (arith, length-append (call_bytes 6 call) (_ ∷ []), length-call_bytes 6 call)

read-address :
    {callsign : Bytes} {ssid : ℕ} (last : Bool) (rest : Bytes)
    → IsCallsign callsign ssid
    → ax25_decode_addr (address (base callsign) ssid last ++ rest) 12 ≡ some (shown callsign ssid)
read-address {callsign} {ssid} last rest ok =
    decode-address (base callsign) ssid last rest ok.graphic ok.at_most_six
      (parse_ssid_bounds (split_dash callsign).1 ok.numbered)

strip-ui_frame :
    {dst src : Bytes} {d s : ℕ} (info : Bytes)
    → IsCallsign dst d
    → IsCallsign src s
    → ax25_strip_frame (ui_frame dst d src s info) ≡ some (shown src s, shown dst d, info)
strip-ui_frame {dst} {src} {d} {s} info to from =
    let dst_bytes = address (base dst) d false in
    let src_bytes = address (base src) s true in
    strip-frame_of dst_bytes src_bytes info (length-address (base dst) d false)
      (length-address (base src) s true) (read-address false (src_bytes ++ (0x03 ∷ 0xF0 ∷ info)) to)
      (read-address true (0x03 ∷ 0xF0 ∷ info) from)

-- A frame between two callsigns of up to six letters is built if its information field and the
-- buffer allow it, and is read as the two callsigns, in upper case and with their numbers, and the
-- information field.
pub strip-build_callsigns :
    {dst src : Bytes} {d s : ℕ} (info : Bytes) (out_size : ℕ)
    → IsCallsign dst d
    → IsCallsign src s
    → length info ≤ max_info
    → hdr_len + length info ≤ out_size
    → (frame : Bytes) × (ax25_build_frame dst src info out_size ≡ some frame)
      × (ax25_strip_frame frame ≡ some (shown src s, shown dst d, info))
strip-build_callsigns {dst} {src} {d} {s} info out_size to from short room = (
  ui_frame dst d src s info,
  build-ui_frame info out_size to from short room,
  strip-ui_frame info to from,
)

-- A frame for callsigns as they were read is the frame for the callsigns that were sent.
pub build_frame-shown :
    {dst src : Bytes} {d s : ℕ} (info : Bytes) (out_size : ℕ)
    → IsCallsign dst d
    → IsCallsign src s
    → ax25_build_frame (shown dst d) (shown src s) info out_size
      ≡ ax25_build_frame dst src info out_size
unfolding ax25_build_frame
build_frame-shown info out_size to from = rw (encode-shown false to, encode-shown true from) refl

pub length-build_frame :
    {dst src : Bytes} {d s : ℕ} (info : Bytes) (out_size : ℕ) {frame : Bytes}
    → IsCallsign dst d
    → IsCallsign src s
    → length info ≤ max_info
    → hdr_len + length info ≤ out_size
    → ax25_build_frame dst src info out_size ≡ some frame
    → length frame ≡ hdr_len + length info
length-build_frame {dst} {src} {d} {s} info out_size {frame} to from short room e =
    let dst_bytes = address (base dst) d false in
    let src_bytes = address (base src) s true in
    let same : some (ui_frame dst d src s info) ≡ some frame =
      sym (build-ui_frame info out_size to from short room) ∙ e in
    let made : ui_frame dst d src s info ≡ frame = cc in
    rw (sym made) (
      omega (
        arith,
        length-append dst_bytes (src_bytes ++ (0x03 ∷ 0xF0 ∷ info)),
        length-append src_bytes (0x03 ∷ 0xF0 ∷ info),
        length-address (base dst) d false,
        length-address (base src) s true,
      ))

-- ===== src/Kiss/Runs.antt =====
-- Runs of kiss.c at concrete inputs, and its theorems applied at them.
use ion_dtn_terrestrial.Prelude.{true, [], ◌∷◌, ◌++◌, map, ◌≡◌, refl, none, some, arith, All}
use ion_dtn_terrestrial.Prelude.Bits.{Bytes}
use ion_dtn_terrestrial.Kiss.{
  Decoder, frame, error, ready, kiss_decoder_init, kiss_encode, feed_all, kiss_build_cmd,
}
use ion_dtn_terrestrial.Kiss.Decode.{IsValid, Fits, feed_all_safe}
use ion_dtn_terrestrial.Kiss.RoundTrip.{reported, Sent, nothing, then_frame, feed_all-Sent}

abbrev message : Bytes
message = 0x41 ∷ 0xC0 ∷ 0xDB ∷ 0x42 ∷ []

abbrev message_frame : Bytes
message_frame = 0xC0 ∷ 0x00 ∷ 0x41 ∷ 0xDB ∷ 0xDC ∷ 0xDB ∷ 0xDD ∷ 0x42 ∷ 0xC0 ∷ []

encode_message : kiss_encode message 9 ≡ some message_frame
unfolding kiss_encode
encode_message = refl

encode_no_room : kiss_encode message 8 ≡ none
unfolding kiss_encode
encode_no_room = refl

decode_message : feed_all kiss_decoder_init message_frame 64 ≡ (ready, frame message ∷ [])
unfolding feed_all
decode_message = refl

command_is_no_data : feed_all ready (0xC0 ∷ 0x01 ∷ 0x32 ∷ 0xC0 ∷ []) 64 ≡ (ready, error ∷ [])
unfolding feed_all
command_is_no_data = refl

build_txdelay : kiss_build_cmd 0x01 0x32 4 ≡ some (0xC0 ∷ 0x01 ∷ 0x32 ∷ 0xC0 ∷ [])
unfolding kiss_build_cmd
build_txdelay = refl

-- A decoder in the middle of a frame, behind a FESC.
abbrev interrupted : Decoder
interrupted = record { buf = 0x05 ∷ 0x06 ∷ []; in_frame = true; escape = true }

two_frames : Sent 9 (message ∷ message ∷ []) (message_frame ++ (message_frame ++ []))
two_frames = then_frame encode_message (then_frame encode_message nothing)

feed_all-Sent_example :
    feed_all ready (message_frame ++ (message_frame ++ [])) 64
    ≡ (ready, map (λ payload. reported payload 64) (message ∷ message ∷ []))
feed_all-Sent_example = feed_all-Sent 64 two_frames

feed_all_safe_example :
    IsValid (feed_all interrupted message_frame 64).0
    × All (Fits 64) (feed_all interrupted message_frame 64).1
feed_all_safe_example = feed_all_safe message_frame interrupted 64 (omega arith)

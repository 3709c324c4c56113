-- ===== src/Serial/Tnc.antt =====
-- `serial_configure_tnc` of kiss-interface/serial.c: what reaches the TNC.
use ion_dtn_terrestrial.Prelude.{ℕ, true, false, [], ◌∷◌, length, take, drop, Option, some, ◌≡◌}
use ion_dtn_terrestrial.Prelude.Bits.{Bytes}
use ion_dtn_terrestrial.Kiss.{ready, fend, feed_all, max_payload}

-- A port that takes everything.
abbrev pub takes_all : Bytes → Option ℕ
takes_all bytes = some (length bytes)

-- Before the last byte of the frame, a KISS decoder holds exactly this command and this value, and
-- the last byte is the FEND that ends them.
abbrev pub IsSetting : ℕ → ℕ → Bytes → Type 0
IsSetting cmd value cmd_buf =
    ((feed_all ready (take 3 cmd_buf) max_payload).0
      ≡ record { buf = cmd ∷ value ∷ []; in_frame = true; escape = false })
    × (drop 3 cmd_buf ≡ fend ∷ [])

abbrev pub command_frame : ℕ → ℕ → Bytes
command_frame cmd value = fend ∷ cmd ∷ value ∷ fend ∷ []

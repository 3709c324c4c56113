-- ===== src/Ping/Runs.antt =====
-- Runs of kiss-interface/ping.c at a concrete payload, and its theorem applied at it.
use ion_dtn_terrestrial.Prelude.{[], ◌∷◌, none, some, ◌≡◌, refl}
use ion_dtn_terrestrial.Prelude.Bits.{Bytes}
use ion_dtn_terrestrial.Ping.{ping_build_payload, ping_parse_payload, ping_now_us}

abbrev ping_bytes : Bytes
ping_bytes = b'P' ∷ b'I' ∷ b'N' ∷ b'G' ∷ 0x01 ∷ 0x02 ∷ 0 ∷ 0 ∷ 0 ∷ 0 ∷ 0 ∷ 0x0F ∷ 0x42 ∷ 0x40 ∷ []

build : ping_build_payload 258 1000000 14 ≡ some ping_bytes
unfolding ping_build_payload
build = refl

too_short : ping_parse_payload (b'P' ∷ b'I' ∷ b'N' ∷ b'G' ∷ []) ≡ none
unfolding ping_parse_payload
too_short = refl

clock : ping_now_us 5 2000000 ≡ 5002000
unfolding ping_now_us
clock = refl

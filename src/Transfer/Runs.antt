-- ===== src/Transfer/Runs.antt =====
-- The sending and receiving of kiss-interface/main.c at concrete payloads.
use ion_dtn_terrestrial.Prelude.{
  ◌==◌, if◌then◌else◌, some, none, true, [], ◌∷◌, replicate, ◌≡◌, refl, arith,
}
use ion_dtn_terrestrial.Prelude.Bits.{Bytes}
use ion_dtn_terrestrial.Bp.Items.{IsEid}
use ion_dtn_terrestrial.Bp.Reassembly.{bp_reassembly_init}
use ion_dtn_terrestrial.Transfer.{cmd_bp_send, fragment_len, to_stdout, BpRecvCtx, write_out}
use ion_dtn_terrestrial.Transfer.Delivery.{IsWritten, cmd_bp_send-delivers}
use ion_dtn_terrestrial.Transfer.Fragments.{reliable, IsSending}

last_fragment_len : fragment_len 1025 1024 ≡ 1
last_fragment_len = refl

-- "dtn://a" and "dtn://b"
abbrev here : Bytes
here = b'd' ∷ b't' ∷ b'n' ∷ b':' ∷ b'/' ∷ b'/' ∷ b'a' ∷ []

abbrev there : Bytes
there = b'd' ∷ b't' ∷ b'n' ∷ b':' ∷ b'/' ∷ b'/' ∷ b'b' ∷ []

here-IsEid : IsEid here
here-IsEid = record {
  ssp = b'/' ∷ b'/' ∷ b'a' ∷ [];
  is_dtn = refl;
  fits = omega arith;
  no_nul = omega arith;
}

there-IsEid : IsEid there
there-IsEid = record {
  ssp = b'/' ∷ b'/' ∷ b'b' ∷ [];
  is_dtn = refl;
  fits = omega arith;
  no_nul = omega arith;
}

abbrev idle : BpRecvCtx
idle = record {
  bundles_received = 4;
  reasm = bp_reassembly_init;
  output = λ n. if n == 4 then some to_stdout else none;
  on_stdout = [];
  files = [];
}

-- A payload that needs fragments.
abbrev payload : Bytes
payload = replicate 2100 0x41

sending : IsSending here there payload 3600000 7 2000
sending = record {
  src_fits = here-IsEid;
  dst_fits = there-IsEid;
  lifetime_fits = omega arith;
  seq_fits = omega arith;
  time_fits = omega arith;
  few = omega arith;
}

cmd_bp_send-delivers_example :
    (cmd_bp_send reliable here there payload 3600 7 1000 2000 idle ≡ (write_out idle payload, true))
    × IsWritten to_stdout payload idle (write_out idle payload)
cmd_bp_send-delivers_example =
    cmd_bp_send-delivers here there payload 3600 7 1000 2000 idle sending (omega arith) refl refl

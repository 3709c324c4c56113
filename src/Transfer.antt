-- ===== src/Transfer.antt =====
-- kiss-interface/main.c: sending application data as one bundle or in fragments, and the callback
-- that receives them. What lies between, LTP on a line, is a parameter: `deliver link block` gives
-- the link afterwards and whether ltp_send_block and ltp_engine_run both returned 0. What is
-- written to a file or to the standard output is a list of byte strings.
pub mod Sizes
pub mod Fragments
pub mod Delivery
mod Runs
use ion_dtn_terrestrial.Prelude.{
  ℕ, zero, suc, ◌+◌, ◌-◌, ◌*◌, ◌%◌, ◌^◌, Bool, true, false, ltb, if◌then◌else◌, List, [], ◌∷◌, ◌++◌,
  length, take, drop, Option, none, some,
}
use ion_dtn_terrestrial.Prelude.Bits.{Bytes}
use ion_dtn_terrestrial.Bp.{Bundle, is_fragment, bp_fragment_count}
use ion_dtn_terrestrial.Bp.Decode.{bp_decode_bundle}
use ion_dtn_terrestrial.Bp.Encode.{bp_encode_bundle, bp_encode_fragment}
use ion_dtn_terrestrial.Bp.Reassembly.{
  Reassembly, bp_reassembly_init, bp_reassembly_add, stored_bytes,
}

abbrev pub max_bundle_buf : ℕ
max_bundle_buf = 2048

abbrev pub max_fragments : ℕ
max_fragments = 64

abbrev pub default_fragment_size : ℕ
default_fragment_size = 512

-- `snprintf(uri, sizeof(uri), "%s", eid)`
abbrev pub uri_of : Bytes → Bytes
uri_of eid = take 63 eid

abbrev pub fragment_len : ℕ → ℕ → ℕ
fragment_len payload_len off =
    let flen = payload_len - off in
    if ltb default_fragment_size flen then default_fragment_size else flen

module _ {ℓ} {Link : Type ℓ} (deliver : Link → Bytes → Link × Bool) where
  abbrev pub deliver_block : Link → Option Bytes → Link × Bool
  deliver_block link none = (link, false)
  deliver_block link (some block) = deliver link block

  abbrev pub and_then : Link × Bool → (Link → Link × Bool) → Link × Bool
  and_then (link, true) next = next link
  and_then (link, false) next = (link, false)

  -- The loop, with n fragments to go from the f-th on.
  unfoldable pub send_fragments : (ℕ → Option Bytes) → ℕ → ℕ → Link → Link × Bool
  send_fragments encode f zero link = (link, true)
  send_fragments encode f (suc n) link =
      and_then (deliver_block link (encode f)) (λ next. send_fragments encode (suc f) n next)

  unfoldable pub send_in_fragments : (ℕ → Option Bytes) → Option ℕ → Link → Link × Bool
  send_in_fragments encode none link = (link, false)
  send_in_fragments encode (some nfrags) link =
      if ltb max_fragments nfrags then (link, false) else send_fragments encode 0 nfrags link

-- The f-th fragment, in `fbuf`.
unfoldable pub encode_nth : Bytes → Bytes → Bytes → ℕ → ℕ → ℕ → ℕ → Option Bytes
encode_nth src dst payload lifetime_ms seq creation_time f =
    let off = f * default_fragment_size % 2 ^ 64 in
    let flen = fragment_len (length payload) off in
    bp_encode_fragment src dst (take flen (drop off payload)) lifetime_ms seq off (length payload)
      creation_time max_bundle_buf

module _ {ℓ} {Link : Type ℓ} (deliver : Link → Bytes → Link × Bool) where
  -- One block if the bundle has been encoded, and fragments otherwise.
  abbrev pub send_encoded : Option Bytes → (Link → Link × Bool) → Link → Link × Bool
  send_encoded none in_fragments link = in_fragments link
  send_encoded (some bundle) in_fragments link =
      if ltb 0 (length bundle) then deliver link bundle else in_fragments link

  -- `bp_seq` is the static counter after its increment; `now` and `later` are the times at which the
  -- bundle and the fragments are encoded. The Boolean says whether 0 is returned.
  unfoldable pub cmd_bp_send : Bytes → Bytes → Bytes → ℕ → ℕ → ℕ → ℕ → Link → Link × Bool
  cmd_bp_send local_eid remote_eid payload lifetime_sec bp_seq now later link =
      let lifetime_ms = lifetime_sec * 1000 % 2 ^ 64 in
      let src = uri_of local_eid in
      let dst = uri_of remote_eid in
      send_encoded (bp_encode_bundle src dst payload lifetime_ms bp_seq now max_bundle_buf)
        (send_in_fragments deliver (encode_nth src dst payload lifetime_ms bp_seq later)
          (bp_fragment_count (length payload) default_fragment_size))
        link

-- Where a bundle goes: to stdout, or to the file of this name.
pub data Output : Type 0 where
  to_stdout : Output
  to_file : Bytes → Output

-- `output` tells where the next bundle goes after so many: without --outdir always to stdout, and
-- with it to the file that fopen opens, whose name is made of the directory, the second and the
-- source, or nowhere, `none`, where fopen fails. `on_stdout` is what went to stdout, bundle by bundle.
-- `files` are the files that were written, the last one first: fopen with "wb" empties a file of
-- the same name, so that the first entry of a name is what the file holds.
pub record BpRecvCtx : Type 0 where
  pub bundles_received : ℕ
  pub reasm : Reassembly
  pub output : ℕ → Option Output
  pub on_stdout : List Bytes
  pub files : List (Bytes × Bytes)

abbrev pub write_to : Option Output → Bytes → BpRecvCtx → BpRecvCtx
write_to none adu rc = rc
write_to (some to_stdout) adu rc = record rc { on_stdout = rc.on_stdout ++ (adu ∷ []) }
write_to (some (to_file fname)) adu rc = record rc { files = (fname, adu) ∷ rc.files }

-- The bundle is counted even if its file could not be opened.
unfoldable pub write_out : BpRecvCtx → Bytes → BpRecvCtx
write_out rc adu =
    write_to (rc.output rc.bundles_received) adu
      (record rc { bundles_received = (rc.bundles_received + 1) % 2 ^ 32 })

unfoldable pub after_fragment : BpRecvCtx → Reassembly × Option Bool → BpRecvCtx
after_fragment rc (reasm, none) = record rc { reasm = reasm }
after_fragment rc (reasm, some false) = record rc { reasm = reasm }
after_fragment rc (reasm, some true) =
    write_out (record rc { reasm = bp_reassembly_init })
      (stored_bytes reasm.data_at 0 reasm.total_adu_len)

unfoldable pub received_bundle : BpRecvCtx → Option (Bundle × Bytes) → BpRecvCtx
received_bundle rc none = rc
received_bundle rc (some (b, rest)) =
    if is_fragment b.primary.flags
    then after_fragment rc (bp_reassembly_add rc.reasm b)
    else write_out rc (take b.payload_len b.payload)

unfoldable pub bp_recv_block_cb : BpRecvCtx → Bytes → BpRecvCtx
bp_recv_block_cb rc block = received_bundle rc (bp_decode_bundle block)

-- ===== src/Ltp/Engine/Import.antt =====
-- The receiving side of `ltp_process_segment`: finding or creating an import session, and taking a
-- data segment into it.
use ion_dtn_terrestrial.Prelude.{
  ℕ, ◌%◌, ◌^◌, Bool, true, false, not, ◌&&◌, ◌||◌, ◌==◌, leb, ltb, if◌then◌else◌, List, [], ◌∷◌,
  take, Option, none, some, ◌>>=◌, ◌>>◌, fail_if, get_elem?,
}
use ion_dtn_terrestrial.Ltp.Types.{
  SegType, red_data_eorp_cp, SegmentHdr, DataSegment, Claim, max_block_size,
}
use ion_dtn_terrestrial.Ltp.RecvMap.{ltp_recv_map_add_claim, range_end}
use ion_dtn_terrestrial.Ltp.Engine.State.{ImportSession, find_index, copy_into}

abbrev pub is_session : ℕ → ℕ → ImportSession → Bool
is_session engine_id session_number s =
    s.active && (s.engine_id == engine_id && s.session_number == session_number)

abbrev pub new_session : SegmentHdr → ImportSession
new_session hdr = record {
  active = true;
  engine_id = hdr.sender_engine_id;
  session_number = hdr.session_number;
  block_data = λ _. 0;
  block_len = 0;
  recv_map = [];
  next_rpt_serial = 1;
  complete = false;
  delivered = false;
}

-- A free slot, with the session that is created in it.
unfoldable pub create_session : SegmentHdr → List ImportSession → Option (ℕ × ImportSession)
create_session hdr sessions = do
  slot ← find_index (λ (s : ImportSession). not s.active) sessions
  some (slot, new_session hdr)

-- The slot and the session of this sender and number, created if there is none; `none` is "no
-- free import session slots".
unfoldable pub find_or_create : SegmentHdr → List ImportSession → Option (ℕ × ImportSession)
unfolding create_session find_index
find_or_create hdr sessions =
    elim (find_index (is_session hdr.sender_engine_id hdr.session_number) sessions) [
      | none ↦ create_session hdr sessions
      | some slot ↦ (do sess ← get_elem? sessions slot; some (slot, sess))
    ]

abbrev pub is_eorp : SegType → Bool
is_eorp red_data_eorp_cp = true
is_eorp _ = false

-- `if (dseg.length > 0 && dseg.data) memcpy(...)`
unfoldable pub store_payload : DataSegment → (ℕ → ℕ) → (ℕ → ℕ)
store_payload dseg block_data =
    let copied : ℕ → ℕ = elim dseg.payload [
      | none ↦ block_data
      | some bytes ↦ copy_into block_data dseg.offset (take dseg.len bytes)
    ] in
    if ltb 0 dseg.len then copied else block_data

-- `claim_count == 1 && claims[0].offset == 0 && claims[0].length >= block_len`
unfoldable pub covers_block : ℕ → List Claim → Bool
covers_block block_len [] = false
covers_block block_len (c ∷ []) = c.offset == 0 && leb block_len c.len
covers_block block_len (c ∷ d ∷ claims) = false

-- From "Validate offset + length" to "Check if block is complete"; `none` is the return of -1.
unfoldable pub receive_data : DataSegment → ImportSession → Option ImportSession
unfolding store_payload covers_block copy_into
receive_data dseg sess = do
  fail_if (ltb max_block_size (range_end dseg.offset dseg.len))
  let recv_map = ltp_recv_map_add_claim sess.recv_map dseg.offset dseg.len
  let block_len =
      if is_eorp dseg.hdr.type then range_end dseg.offset dseg.len % 2 ^ 32 else sess.block_len
  some (record sess {
    block_data = store_payload dseg sess.block_data;
    recv_map = recv_map;
    block_len = block_len;
    complete = (ltb 0 block_len && covers_block block_len recv_map) || sess.complete;
  })

-- ===== src/Ltp/Engine/InOrder.antt =====
-- The segments of a block of kiss-interface/ltp.c, received in the order in which they are sent.
use ion_dtn_terrestrial.Prelude.{
  ℕ, zero, suc, ◌+◌, ◌≤◌, ◌<◌, ◌==◌, ◌^◌, Bool, true, false, List, [], ◌∷◌, length, Option, some,
  fail_if, >>=-eq-some, ◌>>=◌, ◌≡◌, refl, arith, subst,
}
use ion_dtn_terrestrial.Prelude.Bits.{Bytes}
use ion_dtn_terrestrial.Ltp.Types.{SegmentHdr, DataSegment, Claim, max_block_size}
use ion_dtn_terrestrial.Ltp.RecvMap.{merge, insert_merged, insert_claim, ltp_recv_map_add_claim}
use ion_dtn_terrestrial.Ltp.Engine.State.{ImportSession, Engine, bytes_of}
use ion_dtn_terrestrial.Ltp.Engine.Import.{covers_block, receive_data, new_session}
use ion_dtn_terrestrial.Ltp.Engine.Reassembly.{
  Holds, after, receive_data-after, after-Holds, complete-bytes_of,
}
use ion_dtn_terrestrial.Ltp.Engine.Segmentation.{Cut, Cuts, done, cut, is_empty, segment_block-Cuts}
use ion_dtn_terrestrial.Ltp.Engine.Export.{ltp_segment_block}
use ion_dtn_terrestrial.Ltp.Engine.Delivery.{new_session-HoldsOwn}

-- One call of `receive_data` for each segment.
abbrev pub receive_all : List DataSegment → ImportSession → Option ImportSession
receive_all [] sess = some sess
receive_all (dseg ∷ dsegs) sess = receive_data dseg sess >>= receive_all dsegs

-- The map after the first `n` bytes.
abbrev prefix_map : ℕ → List Claim
prefix_map zero = []
prefix_map (suc n) = record { offset = 0; len = suc n } ∷ []

prefix_map-positive : (n : ℕ) → 0 < n → prefix_map n ≡ (record { offset = 0; len = n }) ∷ []
prefix_map-positive zero h = absurd (omega arith)
prefix_map-positive (suc n) h = refl

add_claim-prefix_map :
    (from len : ℕ)
    → 0 < len
    → from + len < 2 ^ 64
    → ltp_recv_map_add_claim (prefix_map from) from len ≡ prefix_map (from + len)
unfolding ltp_recv_map_add_claim merge insert_merged insert_claim
add_claim-prefix_map zero len positive small =
    rw (prefix_map-positive (0 + len) (omega arith)) (ground arith)
add_claim-prefix_map (suc n) len positive small =
    rw (prefix_map-positive (suc n + len) (omega arith)) (ground arith)

prefix_map-covers : (n : ℕ) → 0 < n → covers_block n (prefix_map n) ≡ true
unfolding covers_block
prefix_map-covers zero h = absurd (omega arith)
prefix_map-covers (suc n) h = ground arith

-- A session that has received the first `from` bytes of the block and not yet its end.
record Prefix (block : Bytes) (from : ℕ) (sess : ImportSession) : Type 0 where
  pub holds : Holds block sess
  pub map_is : sess.recv_map ≡ prefix_map from

module _ (block : Bytes) (small : length block ≤ max_block_size) (mtu : ℕ) where
  next-Prefix :
      (from : ℕ) (seg : DataSegment) (last : Bool) (sess : ImportSession)
      → Cut block mtu from seg last
      → Prefix block from sess
      → Prefix block (from + seg.len) (after seg sess)
  next-Prefix from seg last sess c h = record {
    holds = after-Holds block small seg c.part sess h.holds;
    map_is =
        rw (h.map_is, c.begins)
          (add_claim-prefix_map from seg.len c.some_byte (omega (arith, c.part.inside, c.begins)));
  }

  last-complete :
      (from : ℕ) (seg : DataSegment) (sess : ImportSession)
      → Cut block mtu from seg true
      → Prefix block from sess
      → (after seg sess).complete ≡ true
  last-complete from seg sess c h =
      let extended =
        add_claim-prefix_map from seg.len c.some_byte (omega (arith, c.part.inside, c.begins)) in
      let covers = prefix_map-covers (from + seg.len) (omega (arith, c.some_byte)) in
      rw (c.closes, c.begins, h.map_is, extended) (ground (arith, covers, c.some_byte))

  receive_all-Cuts :
      (from : ℕ) (segs : List DataSegment) (sess : ImportSession)
      → Cuts block mtu from segs
      → Prefix block from sess
      → (is_empty segs ≡ true → sess.complete ≡ true)
      → (final : ImportSession) × (receive_all segs sess ≡ some final)
        × (final.complete ≡ true)
        × (bytes_of final.block_len final.block_data ≡ block)
  receive_all-Cuts from [] sess cuts h ended =
      (sess, refl, ended refl, complete-bytes_of block sess h.holds (ended refl))
  receive_all-Cuts from (seg ∷ segs) sess (cut c rest) h ended =
      let next = after seg sess in
      let ends : is_empty segs ≡ true → next.complete ≡ true =
        λ e. last-complete from seg sess (subst (Cut block mtu from seg) e c) h in
      let (final, received, complete, bytes) =
        receive_all-Cuts (from + seg.len) segs next rest
          (next-Prefix from seg (is_empty segs) sess c h) ends in
      (final, rw (receive_data-after block small seg c.part sess) received, complete, bytes)

is_empty-Cuts :
    (block : Bytes) (mtu : ℕ) (segs : List DataSegment)
    → 0 < length block
    → Cuts block mtu 0 segs
    → is_empty segs ≡ false
is_empty-Cuts block mtu [] nonempty (done ended) = absurd (omega arith)
is_empty-Cuts block mtu (seg ∷ segs) nonempty cuts = refl

-- Whatever a peer's segment MTU above 0 is: the segments that it cuts a block into, received in that
-- order by a new session, make the session complete, and its bytes are the block.
pub receive_all-segment_block :
    (eng : Engine) (remote_engine_id : ℕ) (block : Bytes) (hdr : SegmentHdr) {eng' : Engine}
    {segments : List DataSegment}
    → 0 < eng.config.segment_mtu
    → length block ≤ max_block_size
    → ltp_segment_block eng remote_engine_id block ≡ some (eng', segments)
    → (final : ImportSession) × (receive_all segments (new_session hdr) ≡ some final)
      × (final.complete ≡ true)
      × (bytes_of final.block_len final.block_data ≡ block)
unfolding ltp_segment_block
receive_all-segment_block eng remote_engine_id block hdr {eng'} {segments} positive small e =
    let (u, filled, e1) = >>=-eq-some (fail_if (length block == 0)) _ e in
    let nonempty : 0 < length block = ground arith in
    let cuts = segment_block-Cuts eng remote_engine_id block positive e in
    let fresh : Prefix block 0 (new_session hdr) = record {
      holds = new_session-HoldsOwn (λ _ _. block) hdr;
      map_is = refl;
    } in
    receive_all-Cuts block small eng.config.segment_mtu 0 segments (new_session hdr) cuts fresh
      (λ e. cc (e, is_empty-Cuts block eng.config.segment_mtu segments nonempty cuts))

-- ===== src/Ltp/Engine/Reassembly.antt =====
-- A session that receives parts of one block, in any order and any number of times.
use ion_dtn_terrestrial.Prelude.{
  ℕ, zero, suc, ◌+◌, ◌-◌, ◌≤◌, ◌<◌, true, ◌&&◌, ◌||◌, ltb, if◌then◌else◌, Bool-cases, List, [], ◌∷◌,
  length, take, length-take, some, ◌≡◌, ◌∙◌, ◌⊎◌, inl, inr, refl, ap, arith, All,
}
use ion_dtn_terrestrial.Prelude.Bits.{Bytes}
use ion_dtn_terrestrial.Ltp.Types.{DataSegment, Claim, max_block_size}
use ion_dtn_terrestrial.Ltp.RecvMap.{ltp_recv_map_add_claim}
use ion_dtn_terrestrial.Ltp.RecvMap.Coverage.{within, covered, Ends, add_claim_sound}
use ion_dtn_terrestrial.Ltp.RecvMap.Gaps.{Gapped, IsRecvMap, add_claim-IsRecvMap}
use ion_dtn_terrestrial.Ltp.Engine.State.{ImportSession, byte_at, copy_into, bytes_of}
use ion_dtn_terrestrial.Ltp.Engine.Import.{covers_block, is_eorp, store_payload, receive_data}

-- The segment carries bytes of the block, at their place, and the end of the red part is the end
-- of the block.
pub record PartOf (block : Bytes) (dseg : DataSegment) : Type 0 where
  pub bytes : Bytes
  pub points_to : dseg.payload ≡ some bytes
  pub holds : dseg.len ≤ length bytes
  pub inside : dseg.offset + dseg.len ≤ length block
  pub same : (i : ℕ) → i < dseg.len → byte_at bytes i ≡ byte_at block (dseg.offset + i)
  pub ends : is_eorp dseg.hdr.type ≡ true → dseg.offset + dseg.len ≡ length block

-- What the session has received is the block's, and it is complete only with the whole block.
pub record Holds (block : Bytes) (sess : ImportSession) : Type 0 where
  pub map_valid : IsRecvMap sess.recv_map
  pub received :
      (x : ℕ)
      → covered sess.recv_map x ≡ true
      → (x < length block) × (sess.block_data x ≡ byte_at block x)
  pub len_known : (sess.block_len ≡ 0) ⊎ (sess.block_len ≡ length block)
  pub complete_whole :
      sess.complete ≡ true
      → (sess.block_len ≡ length block)
        × ((x : ℕ) → x < length block → sess.block_data x ≡ byte_at block x)

Gapped-Ends : (low : ℕ) (claims : List Claim) → Gapped low claims → All Ends claims
Gapped-Ends low [] h = tt
Gapped-Ends low (c ∷ claims) h = (h.2, Gapped-Ends (suc (c.offset + c.len)) claims h.3)

byte_at-take : (n : ℕ) (bytes : Bytes) (i : ℕ) → i < n → byte_at (take n bytes) i ≡ byte_at bytes i
byte_at-take zero bytes i h = absurd (omega arith)
byte_at-take (suc n) [] i h = refl
byte_at-take (suc n) (b ∷ bytes) zero h = refl
byte_at-take (suc n) (b ∷ bytes) (suc i) h = byte_at-take n bytes i (omega arith)

same_at :
    (block : Bytes) (dseg : DataSegment) (p : PartOf block dseg) (x : ℕ)
    → dseg.offset ≤ x
    → x < dseg.offset + dseg.len
    → byte_at (take dseg.len p.bytes) (x - dseg.offset) ≡ byte_at block x
same_at block dseg p x lo hi =
    let back : dseg.offset + (x - dseg.offset) ≡ x = omega arith in
    byte_at-take dseg.len p.bytes (x - dseg.offset) (omega arith)
    ∙ p.same (x - dseg.offset) (omega arith)
    ∙ ap (byte_at block) back

-- After the copy the bytes of the segment's range are the block's, and all others are as before.
store_payload_at :
    (block : Bytes) (dseg : DataSegment) (array : ℕ → ℕ) (x : ℕ)
    → PartOf block dseg
    → store_payload dseg array x
      ≡ (if within dseg.offset (dseg.offset + dseg.len) x then byte_at block x else array x)
unfolding store_payload copy_into
store_payload_at block dseg array x p =
    ground (arith, p.points_to, p.holds, length-take dseg.len p.bytes, same_at block dseg p x)

covers_block-covered :
    (n x : ℕ) (claims : List Claim) → covers_block n claims ≡ true → x < n → covered claims x ≡ true
unfolding covers_block covered
covers_block-covered n x [] h k = cc
covers_block-covered n x (c ∷ []) h k = ground arith
covers_block-covered n x (c ∷ d ∷ claims) h k = cc

abbrev new_map : DataSegment → ImportSession → List Claim
new_map dseg sess = ltp_recv_map_add_claim sess.recv_map dseg.offset dseg.len

abbrev new_len : DataSegment → ImportSession → ℕ
new_len dseg sess = if is_eorp dseg.hdr.type then dseg.offset + dseg.len else sess.block_len

-- What `receive_data` makes of a session.
abbrev pub after : DataSegment → ImportSession → ImportSession
after dseg sess = record sess {
  block_data = store_payload dseg sess.block_data;
  recv_map = new_map dseg sess;
  block_len = new_len dseg sess;
  complete =
      (ltb 0 (new_len dseg sess) && covers_block (new_len dseg sess) (new_map dseg sess))
      || sess.complete;
}

module _ (block : Bytes) (small : length block ≤ max_block_size) (dseg : DataSegment)
    (p : PartOf block dseg) where
  -- A part of a block that fits the array is never refused.
  pub receive_data-after : (sess : ImportSession) → receive_data dseg sess ≡ some (after dseg sess)
  unfolding receive_data
  receive_data-after sess = ground (arith, p.inside)

  received_after :
      (sess : ImportSession)
      → Holds block sess
      → (x : ℕ) → covered (new_map dseg sess) x ≡ true
      → (x < length block) × (store_payload dseg sess.block_data x ≡ byte_at block x)
  received_after sess h x c =
      let ends = Gapped-Ends 0 sess.recv_map h.map_valid.gapped in
      let (kept, sound) =
        add_claim_sound sess.recv_map dseg.offset dseg.len x ends (omega (arith, p.inside))
          h.map_valid.few in
      ground
        (arith, p.inside, sound c, h.received x, store_payload_at block dseg sess.block_data x p)

  len_after :
      (sess : ImportSession)
      → Holds block sess
      → (new_len dseg sess ≡ 0) ⊎ (new_len dseg sess ≡ length block)
  len_after sess h = ground (arith, p.ends, h.len_known)

  complete_after :
      (sess : ImportSession)
      → Holds block sess
      → (ltb 0 (new_len dseg sess) && covers_block (new_len dseg sess) (new_map dseg sess))
          || sess.complete
        ≡ true
      → (new_len dseg sess ≡ length block)
        × ((x : ℕ) → x < length block → store_payload dseg sess.block_data x ≡ byte_at block x)
  complete_after sess h c =
      elim (Bool-cases
        (ltb 0 (new_len dseg sess) && covers_block (new_len dseg sess) (new_map dseg sess))) [
          | inl now ↦
              let whole : new_len dseg sess ≡ length block = ground (arith, len_after sess h) in
              let covers : covers_block (new_len dseg sess) (new_map dseg sess) ≡ true =
                ground (arith, now) in
              (
                whole,
                λ x below.
                    (received_after sess h x (
                      covers_block-covered (new_len dseg sess) x (new_map dseg sess) covers
                        (omega arith))).1,
              )
          | inr later ↦
              let before : sess.complete ≡ true = ground (arith, later, c) in
              let (len, bytes) = h.complete_whole before in
              (
                ground (arith, p.ends),
                λ x below.
                    ground (arith, store_payload_at block dseg sess.block_data x p, bytes x below),
              )
        ]

  pub after-Holds : (sess : ImportSession) → Holds block sess → Holds block (after dseg sess)
  after-Holds sess h = record {
    map_valid =
        add_claim-IsRecvMap sess.recv_map dseg.offset dseg.len (omega (arith, p.inside))
          h.map_valid;
    received = received_after sess h;
    len_known = len_after sess h;
    complete_whole = complete_after sess h;
  }

bytes_of-byte_at :
    (block : Bytes) (array : ℕ → ℕ)
    → ((x : ℕ) → x < length block → array x ≡ byte_at block x)
    → bytes_of (length block) array ≡ block
unfolding bytes_of
bytes_of-byte_at [] array h = refl
bytes_of-byte_at (b ∷ block) array h =
    let first = h 0 (omega arith) in
    let rest = bytes_of-byte_at block (λ i. array (suc i)) (λ x below. h (suc x) (omega arith)) in
    cc

-- A complete session holds the block.
pub complete-bytes_of :
    (block : Bytes) (sess : ImportSession)
    → Holds block sess
    → sess.complete ≡ true
    → bytes_of sess.block_len sess.block_data ≡ block
complete-bytes_of block sess h c =
    let (len, bytes) = h.complete_whole c in rw len (bytes_of-byte_at block sess.block_data bytes)

-- A session that holds parts of a block accepts every further part of it, in any order and however
-- often, and holds parts of the block afterwards; if it is then complete, its bytes are the block.
pub receive_data-Holds :
    (block : Bytes) (dseg : DataSegment) (sess : ImportSession)
    → length block ≤ max_block_size
    → PartOf block dseg
    → Holds block sess
    → (next : ImportSession) × (receive_data dseg sess ≡ some next)
      × Holds block next
      × (next.complete ≡ true → bytes_of next.block_len next.block_data ≡ block)
receive_data-Holds block dseg sess small p h =
    let next = after-Holds block small dseg p sess h in
    (
      after dseg sess,
      receive_data-after block small dseg p sess,
      next,
      complete-bytes_of block (after dseg sess) next,
    )

-- ===== src/Ltp/Engine/Reception.antt =====
-- `ltp_process_segment` on the import side: what a buffer from the port makes of sound sessions.
use ion_dtn_terrestrial.Prelude.{
  ℕ, ◌≤◌, Bool, true, not, Option-cases, List, length, some, get_elem?, ◌≡◌, refl, subst, inl, inr,
  arith, All,
}
use ion_dtn_terrestrial.Prelude.Bits.{Bytes}
use ion_dtn_terrestrial.Ltp.Types.{SegmentHdr, DataSegment, max_block_size}
use ion_dtn_terrestrial.Ltp.Engine.State.{Timespec, ImportSession, Engine, Link, find_index}
use ion_dtn_terrestrial.Ltp.Engine.Import.{is_session, new_session, create_session, find_or_create}
use ion_dtn_terrestrial.Ltp.Engine.Reassembly.{PartOf, after, receive_data-after, after-Holds}
use ion_dtn_terrestrial.Ltp.Engine.Receive.{answer_checkpoint, deliver, take_data, store_import}
use ion_dtn_terrestrial.Ltp.Engine.Process.{close_import}
use ion_dtn_terrestrial.Ltp.Engine.Delivery.{
  HoldsOwn, Sound, new_session-HoldsOwn, deliver-Sound, deliver-HoldsOwn, answer-HoldsOwn,
  answer-Sound, All-set, All-get_elem?, find_index-true,
}

module _ (blocks : ℕ → ℕ → Bytes) where
  -- The session is of the header's sender and number.
  pub record Found (hdr : SegmentHdr) (sess : ImportSession) : Type 0 where
    pub sender : sess.engine_id ≡ hdr.sender_engine_id
    pub number : sess.session_number ≡ hdr.session_number
    pub own : HoldsOwn blocks sess

  is_session-Found :
      (hdr : SegmentHdr) (sess : ImportSession)
      → is_session hdr.sender_engine_id hdr.session_number sess ≡ true
      → HoldsOwn blocks sess
      → Found hdr sess
  is_session-Found hdr sess test h = record {
    sender = ground (arith, test);
    number = ground (arith, test);
    own = h;
  }

  create_session-Found :
      (hdr : SegmentHdr) (sessions : List ImportSession) {slot : ℕ} {sess : ImportSession}
      → create_session hdr sessions ≡ some (slot, sess)
      → Found hdr sess
  unfolding create_session
  create_session-Found hdr sessions {slot} {sess} e =
      elim (Option-cases (find_index (λ (s : ImportSession). not s.active) sessions)) [
        | inl full ↦ cc
        | inr (i, free) ↦
            let same : new_session hdr ≡ sess = cc in
            subst (Found hdr) same
              (record { sender = refl; number = refl; own = new_session-HoldsOwn blocks hdr })
      ]

  pub find_or_create-Found :
      (hdr : SegmentHdr) (sessions : List ImportSession) {slot : ℕ} {sess : ImportSession}
      → All (HoldsOwn blocks) sessions
      → find_or_create hdr sessions ≡ some (slot, sess)
      → Found hdr sess
  unfolding find_or_create
  find_or_create-Found hdr sessions {slot} {sess} h e =
      elim (Option-cases
        (find_index (is_session hdr.sender_engine_id hdr.session_number) sessions)) [
          | inl new ↦ create_session-Found hdr sessions {slot = slot} {sess = sess} (cc)
          | inr (i, known) ↦ elim (Option-cases (get_elem? sessions i)) [
            | inl outside ↦ cc
            | inr (s, there) ↦
                let same : s ≡ sess = cc in
                subst (Found hdr) same (
                  is_session-Found hdr s (find_index-true _ sessions i known there)
                    (All-get_elem? (HoldsOwn blocks) sessions i h there))
          ]
        ]

  store-Sound :
      (slot : ℕ) (sess : ImportSession) (eng : Engine)
      → Sound blocks eng
      → HoldsOwn blocks sess
      → Sound blocks (store_import slot sess eng)
  store-Sound slot sess eng h k = record {
    sessions = All-set (HoldsOwn blocks) eng.import_sessions slot sess h.sessions k;
    deliveries = h.deliveries;
  }

  pub close_import-Sound :
      (test : ImportSession → Bool) (eng : Engine)
      → Sound blocks eng
      → Sound blocks (close_import test eng)
  unfolding close_import
  close_import-Sound test eng h = elim (Option-cases (find_index test eng.import_sessions)) [
    | inl nowhere ↦ rw (nowhere, close_import) h
    | inr (slot, found) ↦
        rw (found, close_import)
          (elim (Option-cases (get_elem? eng.import_sessions slot)) [
            | inl outside ↦ rw outside h
            | inr (sess, there) ↦
                let k = All-get_elem? (HoldsOwn blocks) eng.import_sessions slot h.sessions there in
                rw there (record {
                  sessions =
                      All-set (HoldsOwn blocks) eng.import_sessions slot _ h.sessions (record {
                        map_valid = k.map_valid;
                        received = k.received;
                        len_known = k.len_known;
                        complete_whole = k.complete_whole;
                      });
                  deliveries = h.deliveries;
                })
          ])
  ]

  module _ (small : (id number : ℕ) → length (blocks id number) ≤ max_block_size) where
    pub take_data-Sound :
        (link : Link) (now : Timespec) (hdr : SegmentHdr) (dseg : DataSegment) (slot : ℕ)
        (sess : ImportSession) (eng : Engine)
        → PartOf (blocks hdr.sender_engine_id hdr.session_number) dseg
        → Found hdr sess
        → Sound blocks eng
        → Sound blocks (take_data link now dseg (slot, sess) eng).0
    unfolding take_data
    take_data-Sound link now hdr dseg slot sess eng part found h =
        let block = blocks sess.engine_id sess.session_number in
        let own : PartOf block dseg = rw (found.sender, found.number) part in
        let taken = receive_data-after block (small _ _) dseg own sess in
        let k : HoldsOwn blocks (after dseg sess) =
          after-Holds block (small _ _) dseg own sess found.own in
        let answered = answer_checkpoint link now dseg (after dseg sess) eng in
        let sound = answer-Sound blocks link now dseg (after dseg sess) eng h in
        let holds = answer-HoldsOwn blocks link now dseg (after dseg sess) eng k in
        rw (taken, take_data)
          (store-Sound slot (deliver answered.1 answered.0).1 (deliver answered.1 answered.0).0
            (deliver-Sound blocks answered.1 answered.0 sound holds)
            (deliver-HoldsOwn blocks answered.1 answered.0 holds))

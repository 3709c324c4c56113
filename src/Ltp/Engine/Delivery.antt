-- ===== src/Ltp/Engine/Delivery.antt =====
-- Every block that the engine delivers is a block that was sent.
use ion_dtn_terrestrial.Prelude.{
  ℕ, zero, suc, Bool, true, ◌&&◌, not, Bool-cases, List, [], ◌∷◌, some, get_elem?, ◌≡◌, sym, refl,
  subst, inl, inr, arith, All, All-append,
}
use ion_dtn_terrestrial.Prelude.Bits.{Bytes}
use ion_dtn_terrestrial.Ltp.Types.{SegmentHdr, DataSegment, max_segment_buf}
use ion_dtn_terrestrial.Ltp.Encode.{is_checkpoint, ltp_encode_report}
use ion_dtn_terrestrial.Ltp.RecvMap.Coverage.{covered}
use ion_dtn_terrestrial.Ltp.Engine.State.{
  Timespec, report_timer, ImportSession, Delivery, Engine, Link, find_index, set,
}
use ion_dtn_terrestrial.Ltp.Engine.Import.{new_session}
use ion_dtn_terrestrial.Ltp.Engine.Reassembly.{Holds, complete-bytes_of}
use ion_dtn_terrestrial.Ltp.Engine.Receive.{report_of, answer_checkpoint, deliver}
use ion_dtn_terrestrial.Ltp.Engine.Frame.{
  SameImports, SameImports-trans, transmit-SameImports, start_timer-SameImports,
}

-- The lookups of the engine, on an array whose slots all satisfy P.
module _ (P : ImportSession → Type 0) where
  pub All-set :
      (xs : List ImportSession) (i : ℕ) (v : ImportSession) → All P xs → P v → All P (set xs i v)
  unfolding set
  All-set [] i v h k = tt
  All-set (x ∷ xs) zero v (h, hs) k = (k, hs)
  All-set (x ∷ xs) (suc i) v (h, hs) k = (h, All-set xs i v hs k)

  pub All-get_elem? :
      (xs : List ImportSession) (i : ℕ) {x : ImportSession}
      → All P xs
      → get_elem? xs i ≡ some x
      → P x
  All-get_elem? [] i h e = cc
  All-get_elem? (x ∷ xs) zero (h, hs) e = subst P (cc) h
  All-get_elem? (x ∷ xs) (suc i) (h, hs) e = All-get_elem? xs i hs e

pub find_index-true :
    (test : ImportSession → Bool) (xs : List ImportSession) (i : ℕ) {x : ImportSession}
    → find_index test xs ≡ some i
    → get_elem? xs i ≡ some x
    → test x ≡ true
unfolding find_index
find_index-true test [] i e g = cc
find_index-true test (y ∷ xs) zero e g = ground arith
find_index-true test (y ∷ xs) (suc i) {x} e g = ground (arith, find_index-true test xs i {x = x})

-- The block of each sender and session, and sessions that hold parts of theirs.
module _ (blocks : ℕ → ℕ → Bytes) where
  abbrev pub HoldsOwn : ImportSession → Type 0
  HoldsOwn s = Holds (blocks s.engine_id s.session_number) s

  abbrev pub IsSent : Delivery → Type 0
  IsSent d = (number : ℕ) × (d.block ≡ blocks d.remote_engine_id number)

  pub record Sound (eng : Engine) : Type 0 where
    pub sessions : All HoldsOwn eng.import_sessions
    pub deliveries : All IsSent eng.deliveries

  pub Sound-SameImports : {a b : Engine} → SameImports a b → Sound a → Sound b
  Sound-SameImports same h = record {
    sessions = subst (All HoldsOwn) (sym same.sessions) h.sessions;
    deliveries = subst (All IsSent) (sym same.deliveries) h.deliveries;
  }

  pub new_session-HoldsOwn : (hdr : SegmentHdr) → HoldsOwn (new_session hdr)
  new_session-HoldsOwn hdr = record {
    map_valid = record { few = omega arith; gapped = tt };
    received = λ x c. unfold covered in cc;
    len_known = inl refl;
    complete_whole = λ c. cc;
  }

  pub deliver-Sound :
      (sess : ImportSession) (eng : Engine) → Sound eng → HoldsOwn sess → Sound (deliver sess eng).0
  unfolding deliver
  deliver-Sound sess eng h k = elim (Bool-cases (sess.complete && not sess.delivered)) [
    | inl ready ↦
        rw (ready, deliver)
          (record {
            sessions = h.sessions;
            deliveries = All-append IsSent eng.deliveries _ h.deliveries (
              (
                sess.session_number,
                complete-bytes_of (blocks sess.engine_id sess.session_number) sess k
                    (ground (arith, ready)),
              ),
              tt,
            );
          })
    | inr waiting ↦ rw (waiting, deliver) h
  ]

  pub deliver-HoldsOwn :
      (sess : ImportSession) (eng : Engine) → HoldsOwn sess → HoldsOwn (deliver sess eng).1
  unfolding deliver
  deliver-HoldsOwn sess eng k = elim (Bool-cases (sess.complete && not sess.delivered)) [
    | inl ready ↦
        rw (ready, deliver)
          (record {
            map_valid = k.map_valid;
            received = k.received;
            len_known = k.len_known;
            complete_whole = k.complete_whole;
          })
    | inr waiting ↦ rw (waiting, deliver) k
  ]

  pub answer-HoldsOwn :
      (link : Link) (now : Timespec) (dseg : DataSegment) (sess : ImportSession) (eng : Engine)
      → HoldsOwn sess
      → HoldsOwn (answer_checkpoint link now dseg sess eng).1
  unfolding answer_checkpoint
  answer-HoldsOwn link now dseg sess eng k = elim (Bool-cases (is_checkpoint dseg.hdr.type)) [
    | inl cp ↦
        rw (cp, answer_checkpoint)
          (record {
            map_valid = k.map_valid;
            received = k.received;
            len_known = k.len_known;
            complete_whole = k.complete_whole;
          })
    | inr plain ↦ rw (plain, answer_checkpoint) k
  ]

  pub answer-Sound :
      (link : Link) (now : Timespec) (dseg : DataSegment) (sess : ImportSession) (eng : Engine)
      → Sound eng
      → Sound (answer_checkpoint link now dseg sess eng).0
  unfolding answer_checkpoint
  answer-Sound link now dseg sess eng h = elim (Bool-cases (is_checkpoint dseg.hdr.type)) [
    | inl cp ↦
        rw (cp, answer_checkpoint)
          (Sound-SameImports
            (SameImports-trans
              (transmit-SameImports link
                (ltp_encode_report (report_of eng dseg sess) max_segment_buf) eng)
              (start_timer-SameImports now report_timer sess.engine_id sess.session_number
                sess.next_rpt_serial _))
            h)
    | inr plain ↦ rw (plain, answer_checkpoint) h
  ]

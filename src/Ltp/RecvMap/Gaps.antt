-- ===== src/Ltp/RecvMap/Gaps.antt =====
-- The claims stay sorted, non-empty and apart from one another.
use ion_dtn_terrestrial.Prelude.{
  ℕ, suc, ◌+◌, ◌-◌, ◌^◌, ◌≤◌, ◌<◌, ltb, ◌==◌, true, false, List, [], ◌∷◌, length, ◌≡◌, sym, subst,
  ◌⊎◌, arith, All, Bool-cases, inl, inr,
}
use ion_dtn_terrestrial.Ltp.Types.{Claim, max_claims}
use ion_dtn_terrestrial.Ltp.RecvMap.{
  Merged, touches, keep, grown_start, grown_end, merge, insert_claim, ltp_recv_map_add_claim,
}
use ion_dtn_terrestrial.Ltp.RecvMap.Coverage.{Ends, length-merge, grows}

-- Each claim holds a byte, and begins at `low` or later; the next begins behind its end, with at
-- least one byte in between.
abbrev pub Gapped : ℕ → List Claim → Type 0
Gapped low [] = Unit
Gapped low (c ∷ claims) =
    (low ≤ c.offset) × (0 < c.len) × Ends c × Gapped (suc (c.offset + c.len)) claims

-- The claim neither overlaps the range nor stands next to it.
abbrev IsApart : ℕ → ℕ → Claim → Type 0
IsApart s e c = (c.offset + c.len < s) ⊎ (e < c.offset)

Gapped-le : (a b : ℕ) (claims : List Claim) → a ≤ b → Gapped b claims → Gapped a claims
Gapped-le a b [] h g = tt
Gapped-le a b (c ∷ claims) h g = ground arith

-- A range that ends before all claims begin meets none of them.
merge_before :
    (claims : List Claim) (s e low : ℕ)
    → e < low
    → Gapped low claims
    → merge claims s e ≡ record { kept = claims; new_start = s; new_end = e }
unfolding merge
merge_before [] s e low h g = ground arith
merge_before (c ∷ claims) s e low h g =
    ground (arith, merge_before claims s e (suc (c.offset + c.len)))

All-IsApart :
    (claims : List Claim) (s e low : ℕ) → e < low → Gapped low claims → All (IsApart s e) claims
All-IsApart [] s e low h g = tt
All-IsApart (c ∷ claims) s e low h (lo, pos, ends, g) =
    (inr (omega arith), All-IsApart claims s e _ (omega arith) g)

merge_start :
    (claims : List Claim) (s e low t : ℕ)
    → t ≤ s
    → t ≤ low
    → Gapped low claims
    → t ≤ (merge claims s e).new_start
unfolding merge
merge_start [] s e low t h k g = ground arith
merge_start (c ∷ claims) s e low t h k g = ground (
  arith,
  merge_start claims s e (suc (c.offset + c.len)) t,
  merge_start claims (grown_start c s) (grown_end c e) (suc (c.offset + c.len)) t,
)

merge_joined :
    (c : Claim) (claims : List Claim) (s e : ℕ)
    → touches s e c ≡ true
    → merge (c ∷ claims) s e ≡ merge claims (grown_start c s) (grown_end c e)
unfolding merge
merge_joined c claims s e h = rw h

merge_apart :
    (c : Claim) (claims : List Claim) (s e : ℕ)
    → touches s e c ≡ false
    → merge (c ∷ claims) s e ≡ keep c (merge claims s e)
unfolding merge
merge_apart c claims s e h = rw h

abbrev IsMerged : ℕ → Merged → Type 0
IsMerged low m =
    Gapped low m.kept × All (IsApart m.new_start m.new_end) m.kept × (m.new_end < 2 ^ 63)

merge-IsMerged :
    (claims : List Claim) (s e low : ℕ)
    → s ≤ e
    → e < 2 ^ 63
    → Gapped low claims
    → IsMerged low (merge claims s e)
merge-IsMerged [] s e low h k g = unfold merge in (tt, tt, k)
merge-IsMerged (c ∷ claims) s e low h k (lo, pos, ends, g) = elim (Bool-cases (touches s e c)) [
  | inl joined ↦
      let (gapped, apart, below) =
        merge-IsMerged claims (grown_start c s) (grown_end c e) (suc (c.offset + c.len))
          (ground arith) (ground arith) g in
      rw (merge_joined c claims s e joined)
        (Gapped-le low (suc (c.offset + c.len)) _ (omega arith) gapped, apart, below)
  | inr separate ↦ rw (merge_apart c claims s e separate) (elim (Bool-cases (ltb e c.offset)) [
    | inl before ↦
        let ahead : e < c.offset = ground arith in
        subst (λ (m : Merged). IsMerged low (keep c m))
          (sym (merge_before claims s e (suc (c.offset + c.len)) (omega arith) g))
          ((lo, pos, ends, g), (inr ahead, All-IsApart claims s e _ (omega arith) g), k)
    | inr behind ↦
        let (gapped, apart, below) = merge-IsMerged claims s e (suc (c.offset + c.len)) h k g in
        let start =
          merge_start claims s e (suc (c.offset + c.len)) (suc (c.offset + c.len)) (ground arith)
            (omega arith) g in
        ((lo, pos, ends, gapped), (inl start, apart), below)
  ])
]

insert_claim-Gapped :
    (new : Claim) (claims : List Claim) (low : ℕ)
    → low ≤ new.offset
    → 0 < new.len
    → Ends new
    → Gapped low claims
    → All (IsApart new.offset (new.offset + new.len)) claims
    → Gapped low (insert_claim new claims)
unfolding insert_claim
insert_claim-Gapped new [] low lo pos ends g a = omega arith
insert_claim-Gapped new (c ∷ claims) low lo pos ends (lo', pos', ends', g) (a, others) =
    ground (arith, insert_claim-Gapped new claims (suc (c.offset + c.len)))

length-insert_claim :
    (new : Claim) (claims : List Claim) → length (insert_claim new claims) ≡ length claims + 1
unfolding insert_claim
length-insert_claim new [] = omega arith
length-insert_claim new (c ∷ claims) = ground (arith, length-insert_claim new claims)

-- The well-formed maps: at most LTP_MAX_CLAIMS claims, sorted, non-empty, neither overlapping nor
-- adjacent.
pub record IsRecvMap (map : List Claim) : Type 0 where
  pub few : length map ≤ max_claims
  pub gapped : Gapped 0 map

-- Adding a range of at least one byte, or none, keeps the map well-formed.
pub add_claim-IsRecvMap :
    (map : List Claim) (offset len : ℕ)
    → offset + len < 2 ^ 63
    → IsRecvMap map
    → IsRecvMap (ltp_recv_map_add_claim map offset len)
unfolding ltp_recv_map_add_claim
add_claim-IsRecvMap map offset len fits h = elim (Bool-cases (len == 0)) [
  | inl empty ↦ rw empty h
  | inr some_bytes ↦
      let m = merge map offset (offset + len) in
      let (gapped, apart, below) =
        merge-IsMerged map offset (offset + len) 0 (omega arith) fits h.gapped in
      let (starts, ends) = grows map offset (offset + len) in
      let new : Claim = record { offset = m.new_start; len = m.new_end - m.new_start } in
      ground (
        arith,
        h.few,
        length-merge map offset (offset + len),
        length-insert_claim new m.kept,
        insert_claim-Gapped new m.kept 0 (omega arith) (ground arith) (ground arith) gapped,
      )
]

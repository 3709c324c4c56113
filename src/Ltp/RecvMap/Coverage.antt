-- ===== src/Ltp/RecvMap/Coverage.antt =====
-- Which bytes the claims cover.
use ion_dtn_terrestrial.Prelude.{
  ℕ, ◌+◌, ◌-◌, ◌^◌, ◌≤◌, ◌<◌, leb, ltb, Bool, true, false, ◌&&◌, ◌||◌, List, [], ◌∷◌, length, ◌≡◌,
  ◌∙◌, ap, arith, All, Bool-cases, inl, inr,
}
use ion_dtn_terrestrial.Ltp.Types.{Claim, max_claims}
use ion_dtn_terrestrial.Ltp.RecvMap.{
  touches, grown_start, grown_end, merge, insert_claim, ltp_recv_map_add_claim,
}

-- Byte x lies in [start, stop).
abbrev pub within : ℕ → ℕ → ℕ → Bool
within start stop x = leb start x && ltb x stop

unfoldable pub covered : List Claim → ℕ → Bool
covered [] x = false
covered (c ∷ claims) x = within c.offset (c.offset + c.len) x || covered claims x

-- Every claim ends within the numbers of 63 bits, so that no end wraps around.
abbrev pub Ends : Claim → Type 0
Ends c = c.offset + c.len < 2 ^ 63

-- The range that takes up a claim is the union of the two.
union :
    (c : Claim) (s e x : ℕ)
    → Ends c
    → s ≤ e
    → touches s e c ≡ true
    → within (grown_start c s) (grown_end c e) x
      ≡ within s e x || within c.offset (c.offset + c.len) x
union c s e x h ordered joined = ground arith

or_rotate : (a b c : Bool) → a || (b || c) ≡ (c || a) || b
or_rotate a b c = ground arith

merge-covered :
    (claims : List Claim) (s e x : ℕ)
    → All Ends claims
    → s ≤ e
    → covered (merge claims s e).kept x
        || within (merge claims s e).new_start (merge claims s e).new_end x
      ≡ covered claims x || within s e x
unfolding merge covered
merge-covered [] s e x h ordered = ground arith
merge-covered (c ∷ claims) s e x (h, hs) ordered = elim (Bool-cases (touches s e c)) [
  | inl joined ↦ rw joined (
      merge-covered claims (grown_start c s) (grown_end c e) x hs (ground arith)
      ∙ ap (λ (b : Bool). covered claims x || b) (union c s e x h ordered joined)
      ∙ or_rotate (covered claims x) (within s e x) _)
  | inr apart ↦ rw apart (ground (arith, merge-covered claims s e x hs ordered))
]

insert_claim-covered :
    (new : Claim) (claims : List Claim) (x : ℕ)
    → covered (insert_claim new claims) x
      ≡ covered claims x || within new.offset (new.offset + new.len) x
unfolding insert_claim covered
insert_claim-covered new [] x = ground arith
insert_claim-covered new (c ∷ claims) x = ground (arith, insert_claim-covered new claims x)

pub length-merge : (claims : List Claim) (s e : ℕ) → length (merge claims s e).kept ≤ length claims
unfolding merge
length-merge [] s e = omega arith
length-merge (c ∷ claims) s e =
    ground (arith, length-merge claims s e, length-merge claims (grown_start c s) (grown_end c e))

-- If the first loop takes up no claim, it changes nothing.
merge_idle :
    (claims : List Claim) (s e : ℕ)
    → length claims ≤ length (merge claims s e).kept
    → (merge claims s e).kept ≡ claims
unfolding merge
merge_idle [] s e h = ground arith
merge_idle (c ∷ claims) s e h =
    ground (arith, length-merge claims (grown_start c s) (grown_end c e), merge_idle claims s e)

pub grows :
    (claims : List Claim) (s e : ℕ)
    → ((merge claims s e).new_start ≤ s) × (e ≤ (merge claims s e).new_end)
unfolding merge
grows [] s e = ground arith
grows (c ∷ claims) s e =
    ground (arith, grows claims s e, grows claims (grown_start c s) (grown_end c e))

-- While there is room in the array, exactly the bytes of the new range are added to those that
-- the claims covered.
pub add_claim-covered :
    (map : List Claim) (offset len x : ℕ)
    → All Ends map
    → offset + len < 2 ^ 63
    → length map < max_claims
    → covered (ltp_recv_map_add_claim map offset len) x
      ≡ covered map x || within offset (offset + len) x
unfolding ltp_recv_map_add_claim
add_claim-covered map offset len x h fits room =
    let m = merge map offset (offset + len) in
    ground (
      arith,
      length-merge map offset (offset + len),
      grows map offset (offset + len),
      merge-covered map offset (offset + len) x h (omega arith),
      insert_claim-covered (record { offset = m.new_start; len = m.new_end - m.new_start }) m.kept
          x,
    )

-- With any number of claims, a byte that was covered stays covered, and no byte is covered that
-- was not and does not lie in the new range.
pub add_claim_sound :
    (map : List Claim) (offset len x : ℕ)
    → All Ends map
    → offset + len < 2 ^ 63
    → length map ≤ max_claims
    → (covered map x ≡ true → covered (ltp_recv_map_add_claim map offset len) x ≡ true)
      × (covered (ltp_recv_map_add_claim map offset len) x ≡ true
          → covered map x || within offset (offset + len) x ≡ true)
unfolding ltp_recv_map_add_claim
add_claim_sound map offset len x h fits room =
    let m = merge map offset (offset + len) in
    ground (
      arith,
      length-merge map offset (offset + len),
      merge_idle map offset (offset + len),
      grows map offset (offset + len),
      merge-covered map offset (offset + len) x h (omega arith),
      insert_claim-covered (record { offset = m.new_start; len = m.new_end - m.new_start }) m.kept
          x,
    )

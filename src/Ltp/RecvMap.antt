-- ===== src/Ltp/RecvMap.antt =====
-- `ltp_recv_map_add_claim` of kiss-interface/ltp.c: the byte ranges that have been received.
-- `claims` is the filled part of the array, so `claim_count` is its length.
pub mod Coverage
pub mod Gaps
use ion_dtn_terrestrial.Prelude.{
  ℕ, ◌+◌, ◌-◌, ◌%◌, ◌^◌, ◌==◌, leb, ltb, if◌then◌else◌, Bool, ◌&&◌, List, [], ◌∷◌, length,
}
use ion_dtn_terrestrial.Ltp.Types.{Claim, max_claims}

-- The end of a range of uint64s.
abbrev pub range_end : ℕ → ℕ → ℕ
range_end offset len = (offset + len) % 2 ^ 64

-- The claims that are left, and the range that has taken up the others.
pub record Merged : Type 0 where
  pub kept : List Claim
  pub new_start : ℕ
  pub new_end : ℕ

-- `new_start <= ce && new_end >= cs`: overlapping or adjacent.
abbrev pub touches : ℕ → ℕ → Claim → Bool
touches new_start new_end c = leb new_start (range_end c.offset c.len) && leb c.offset new_end

abbrev pub keep : Claim → Merged → Merged
keep c m = record m { kept = c ∷ m.kept }

-- `if (cs < new_start) new_start = cs;` and `if (ce > new_end) new_end = ce;`
abbrev pub grown_start : Claim → ℕ → ℕ
grown_start c new_start = if ltb c.offset new_start then c.offset else new_start

abbrev pub grown_end : Claim → ℕ → ℕ
grown_end c new_end =
    if ltb new_end (range_end c.offset c.len) then range_end c.offset c.len else new_end

-- The first loop: each claim is compared with the range as it has grown so far.
unfoldable pub merge : List Claim → ℕ → ℕ → Merged
merge [] new_start new_end = record { kept = []; new_start = new_start; new_end = new_end }
merge (c ∷ claims) new_start new_end =
    let grown = merge claims (grown_start c new_start) (grown_end c new_end) in
    let skipped = merge claims new_start new_end in
    if touches new_start new_end c then grown else keep c skipped

-- The insertion before the first claim that begins later.
unfoldable pub insert_claim : Claim → List Claim → List Claim
insert_claim new [] = new ∷ []
insert_claim new (c ∷ claims) =
    if ltb new.offset c.offset then new ∷ c ∷ claims else c ∷ insert_claim new claims

unfoldable pub insert_merged : Merged → List Claim
unfolding insert_claim
insert_merged m =
    if leb max_claims (length m.kept)
    then m.kept
    else insert_claim (record { offset = m.new_start; len = m.new_end - m.new_start }) m.kept

unfoldable pub ltp_recv_map_add_claim : List Claim → ℕ → ℕ → List Claim
unfolding merge insert_merged
ltp_recv_map_add_claim map offset len =
    if len == 0 then map else insert_merged (merge map offset (range_end offset len))

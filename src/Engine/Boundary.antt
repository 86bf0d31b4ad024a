-- ===== src/Engine/Boundary.antt =====
-- src/recovery_engine.c, the secondary packets that may be the primary packet after a gap
-- (`find_secondary_boundary_matches`). A candidate is the index of its record in the secondary
-- history, so comparing pointers is comparing indices.
pub mod Matches
use two_stream_recovery.Base.{
  ℕ, zero, suc, ◌+◌, ◌-◌, ℤ, pos, pos_part, ◌+ℤ◌, ◌-ℤ◌, ltb_ℤ, Bool, true, false, not, ◌&&◌, ◌||◌,
  ltb, leb, ◌==◌, if◌then◌else◌, add64, sub64, Option, none, some, List, [], ◌∷◌, ◌++◌, length,
}
use two_stream_recovery.Engine.State.{Engine, PacketRecord}
use two_stream_recovery.Engine.History.{find_index}
use two_stream_recovery.Engine.Match.{exact_match}
use two_stream_recovery.Engine.Alignment.{expected_index, boundary_search_extra}

abbrev pub max_candidates : ℕ
max_candidates = 64

-- `secondary_after_anchor_candidates_t`.
pub record Candidates : Type 0 where
  pub records : List ℕ
  pub truncated : Bool

abbrev pub no_candidates : Candidates
no_candidates = record { records = []; truncated = false }

abbrev pub contains : List ℕ → ℕ → Bool
contains [] slot = false
contains (x ∷ xs) slot = x == slot || contains xs slot

-- `add_secondary_after_anchor_candidate`.
unfoldable pub add_candidate : Candidates → ℕ → Candidates
add_candidate c slot =
    if contains c.records slot
    then c
    else if leb max_candidates (length c.records)
    then record c { truncated = true }
    else record c { records = c.records ++ (slot ∷ []) }

module _ {D : Type 0} where
  -- The record of a candidate.
  abbrev pub candidate_record : Engine D → ℕ → PacketRecord
  candidate_record e slot = (e.history 1).records slot

  -- A candidate at one index of the secondary stream.
  unfoldable pub collect_at : Engine D → PacketRecord → ℕ → Candidates → Candidates
  unfolding add_candidate
  collect_at e primary index c = elim (find_index (e.history 1) index) [
    | none ↦ c
    | some slot ↦ if exact_match primary (candidate_record e slot) then add_candidate c slot else c
  ]

  unfoldable pub collect_loop : ℕ → Engine D → PacketRecord → ℕ → Candidates → Candidates
  collect_loop zero e primary index c = c
  collect_loop (suc rounds) e primary index c =
      collect_loop rounds e primary (index + 1) (collect_at e primary index c)

  -- `collect_secondary_after_anchor_candidates_in_range`; both ends are in the range, which stops at
  -- the last 64-bit index.
  unfoldable pub collect : Engine D → PacketRecord → ℕ → ℕ → Candidates → Candidates
  collect e primary first last c =
      if ltb last first then c else collect_loop (last - first + 1) e primary first c

  -- The candidates round the index that the alignment expects.
  unfoldable pub collect_aligned : Engine D → PacketRecord → Candidates → Candidates
  unfolding ◌+ℤ◌ ◌-ℤ◌
  collect_aligned e primary c =
      let expected = expected_index e 0 primary in
      let extra = pos boundary_search_extra in
      let c' = if ltb_ℤ expected (pos 0) then c else collect_at e primary (pos_part expected) c in
      let first : ℕ = if ltb_ℤ extra expected then pos_part (expected -ℤ extra) else 0 in
      if ltb_ℤ (expected +ℤ extra) (pos 0)
      then c'
      else collect e primary first (pos_part (expected +ℤ extra)) c'

  -- The last index of the search after the anchor.
  unfoldable pub anchored_last : Engine D → PacketRecord → ℕ → ℕ
  anchored_last e primary first =
      let oversize : ℕ = add64 e.config.max_content_burst_packets 1 in
      let scan : ℕ = if ltb oversize 255 then 255 else oversize in
      add64 (add64 first (sub64 (sub64 primary.stream_index e.last_primary_anchor.primary_index) 1))
        scan

  -- `find_secondary_boundary_matches`.
  unfoldable pub boundary_matches : Engine D → PacketRecord → Candidates
  unfolding collect_aligned anchored_last
  boundary_matches e primary =
      let anchor = e.last_primary_anchor in
      let c =
        if e.alignment.has_alignment
        then collect_aligned e primary no_candidates
        else no_candidates in
      let first : ℕ = add64 anchor.secondary_index 1 in
      if primary.is_null || primary.transport_error || primary.discontinuity_indicator
      then no_candidates
      else if not anchor.valid || leb primary.stream_index anchor.primary_index
      then c
      else collect e primary first (anchored_last e primary first) c

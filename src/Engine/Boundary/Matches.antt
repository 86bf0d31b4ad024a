-- ===== src/Engine/Boundary/Matches.antt =====
-- src/recovery_engine.c, `find_secondary_boundary_matches`: what the candidates are.
use two_stream_recovery.Base.{
  not, ◌||◌, add64, if◌then◌else◌, Bool, All-append, refl, length-append, leb, arith, ◌-◌, zero,
  true, All, [], ◌++◌, ◌==◌, inr, inl, ltb, some, ◌≤◌, ◌∷◌, ◌+◌, false, length, suc, ◌≡◌, List,
  Bool-cases, Option-cases, ℕ,
}
use two_stream_recovery.Engine.Boundary.{
  anchored_last, Candidates, no_candidates, contains, max_candidates, add_candidate,
  candidate_record, collect_at, collect_loop, collect, collect_aligned, boundary_matches,
}
use Prim.Native.Nat.{zero}
use two_stream_recovery.Engine.State.{Engine, PacketRecord}
use two_stream_recovery.Engine.History.{find_index}
use two_stream_recovery.Engine.Match.{exact_match}

-- No slot occurs twice.
abbrev pub AreDistinct : List ℕ → Type 0
AreDistinct [] = Unit
AreDistinct (x ∷ xs) = (contains xs x ≡ false) × AreDistinct xs

contains-snoc :
    (xs : List ℕ) (slot x : ℕ)
    → contains xs x ≡ false
    → (slot == x) ≡ false
    → contains (xs ++ (slot ∷ [])) x ≡ false
contains-snoc [] slot x h d = ground arith
contains-snoc (y ∷ xs) slot x h d = ground (arith, contains-snoc xs slot x)

AreDistinct-snoc :
    (xs : List ℕ) (slot : ℕ)
    → AreDistinct xs
    → contains xs slot ≡ false
    → AreDistinct (xs ++ (slot ∷ []))
AreDistinct-snoc [] slot h d = (refl, tt)
AreDistinct-snoc (x ∷ xs) slot h d =
    (contains-snoc xs slot x h.0 (ground arith), AreDistinct-snoc xs slot h.1 (ground arith))

module _ {D : Type 0} where
  -- At most 64 candidates, all different, each the record of the secondary history at an index that
  -- the history holds, and an exact match of the primary packet.
  pub record AreMatches (e : Engine D) (primary : PacketRecord) (c : Candidates) : Type 0 where
    pub bound : length c.records ≤ max_candidates
    pub distinct : AreDistinct c.records
    pub exact :
        All
          (λ slot.
            ((index : ℕ) × (find_index (e.history 1) index ≡ some slot))
            × (exact_match primary (candidate_record e slot) ≡ true))
          c.records

  add_candidate-AreMatches :
      (e : Engine D) (primary : PacketRecord) (c : Candidates) (slot index : ℕ)
      → AreMatches e primary c
      → find_index (e.history 1) index ≡ some slot
      → exact_match primary (candidate_record e slot) ≡ true
      → AreMatches e primary (add_candidate c slot)
  unfolding add_candidate
  add_candidate-AreMatches e primary c slot index v at_index fit =
      elim (Bool-cases (contains c.records slot)) [
        | inl there ↦ rw (there, add_candidate) v
        | inr new ↦ elim (Bool-cases (leb max_candidates (length c.records))) [
          | inl crowded ↦
              rw (new, crowded, add_candidate)
                (record { bound = v.bound; distinct = v.distinct; exact = v.exact })
          | inr room ↦
              rw (new, room, add_candidate)
                (record {
                  bound = ground (arith, length-append c.records (slot ∷ []));
                  distinct = AreDistinct-snoc c.records slot v.distinct new;
                  exact = All-append _ c.records (slot ∷ []) v.exact (((index, at_index), fit), tt);
                })
        ]
      ]

  collect_at-AreMatches :
      (e : Engine D) (primary : PacketRecord) (index : ℕ) (c : Candidates)
      → AreMatches e primary c
      → AreMatches e primary (collect_at e primary index c)
  unfolding collect_at
  collect_at-AreMatches e primary index c v = elim (Option-cases (find_index (e.history 1) index)) [
    | inl gone ↦ rw (gone, collect_at) v
    | inr (slot, there) ↦ elim (Bool-cases (exact_match primary (candidate_record e slot))) [
      | inl fit ↦
          rw (there, fit, collect_at) (add_candidate-AreMatches e primary c slot index v there fit)
      | inr unfit ↦ rw (there, unfit, collect_at) v
    ]
  ]

  collect_loop-AreMatches :
      (rounds : ℕ) (e : Engine D) (primary : PacketRecord) (index : ℕ) (c : Candidates)
      → AreMatches e primary c
      → AreMatches e primary (collect_loop rounds e primary index c)
  unfolding collect_loop
  collect_loop-AreMatches zero e primary index c v = v
  collect_loop-AreMatches (suc n) e primary index c v =
      collect_loop-AreMatches n e primary (index + 1) (collect_at e primary index c)
        (collect_at-AreMatches e primary index c v)

  collect-AreMatches :
      (e : Engine D) (primary : PacketRecord) (first last : ℕ) (c : Candidates)
      → AreMatches e primary c
      → AreMatches e primary (collect e primary first last c)
  unfolding collect
  collect-AreMatches e primary first last c v = elim (Bool-cases (ltb last first)) [
    | inl empty ↦ rw (empty, collect) v
    | inr some_left ↦
        rw (some_left, collect) (collect_loop-AreMatches (last - first + 1) e primary first c v)
  ]

  either-AreMatches :
      (e : Engine D) (primary : PacketRecord) (b : Bool) (c d : Candidates)
      → AreMatches e primary c
      → AreMatches e primary d
      → AreMatches e primary (if b then c else d)
  either-AreMatches e primary true c d v w = v
  either-AreMatches e primary false c d v w = w

  no_candidates-AreMatches :
      (e : Engine D) (primary : PacketRecord) → AreMatches e primary no_candidates
  no_candidates-AreMatches e primary = record { bound = omega arith; distinct = tt; exact = tt }

  collect_aligned-AreMatches :
      (e : Engine D) (primary : PacketRecord) (c : Candidates)
      → AreMatches e primary c
      → AreMatches e primary (collect_aligned e primary c)
  unfolding collect_aligned
  collect_aligned-AreMatches e primary c v =
      let c' = either-AreMatches e primary _ _ _ v (collect_at-AreMatches e primary _ c v) in
      either-AreMatches e primary _ _ _ c' (collect-AreMatches e primary _ _ _ c')

  -- The candidates for the packet after the gap are at most 64, no two the same record, and each is
  -- a record of the secondary history that is an exact match of the primary packet.
  pub boundary_matches-AreMatches :
      (e : Engine D) (primary : PacketRecord) → AreMatches e primary (boundary_matches e primary)
  unfolding boundary_matches
  boundary_matches-AreMatches e primary =
      let anchor = e.last_primary_anchor in
      let first : ℕ = add64 anchor.secondary_index 1 in
      let nothing = no_candidates-AreMatches e primary in
      let c =
        either-AreMatches e primary e.alignment.has_alignment _ _
          (collect_aligned-AreMatches e primary no_candidates nothing) nothing in
      let all = collect-AreMatches e primary first (anchored_last e primary first) _ c in
      either-AreMatches e primary
        (primary.is_null || primary.transport_error || primary.discontinuity_indicator) _ _ nothing
        (either-AreMatches e primary
          (not anchor.valid || leb primary.stream_index anchor.primary_index) _ _ c all)

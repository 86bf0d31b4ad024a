-- ===== src/Engine/Recovery/NullRegion/Position.antt =====
-- src/recovery_engine.c: `validate_null_position_candidate` and `try_recover_null_position_gap` on
-- the same gap.
use two_stream_recovery.Base.{
  arith, false, ◌==◌, ◌&&◌, ◌||◌, not, ltb, Bool-cases, Option-cases, Bool, Option, none, refl, inr,
  inl, true, some, ◌≡◌, ℕ, zero, suc, ◌+◌, add64,
}
use two_stream_recovery.Base.Step.{go, stop, Step, guard, ◌>>◌, on_stop}
use two_stream_recovery.Stats.{RejectReason}
use two_stream_recovery.Engine.State.{Engine, PacketRecord, Status, ok, error}
use two_stream_recovery.Engine.History.{find_record}
use two_stream_recovery.Engine.Match.{are_anchor, exact_match}
use two_stream_recovery.Engine.Output.{undecided, Reason}
use two_stream_recovery.Engine.Recovery.{
  Gap, Refusal, refuse, missing_packets, prefix_matches, check_ends, insert_range,
}
use two_stream_recovery.Engine.Recovery.There.{null_plan-AllThere}
use two_stream_recovery.Engine.Recovery.Stuck.{IsStuck, insert_range-IsStuck}
use two_stream_recovery.Engine.Recovery.NullRegion.{
  null_range, clean_null_range, null_too_large, null_at, clean_null_at, null_plan, recover_null,
  insert_null, null_insertion,
}
use two_stream_recovery.Engine.Recovery.NullRegion.Checks.{
  check_nulls, check_clean_nulls, null_checks, validate_null, not_null_gap, judge,
}
use two_stream_recovery.Engine.Recovery.Content.Agree.{IsAnnounced}
use two_stream_recovery.Engine.Recovery.Mixed.{Verdict, position_gap, first_candidate}

-- Three checks in front of a rest, and the same three as a row of their own.
row_lifted :
    (a b c : Bool) (x y z : Refusal) (k : Step Verdict (Unit {0}))
    → (guard a (some x) >> (guard b (some y) >> (guard c (some z) >> k)))
      ≡ (on_stop some (guard a x >> (guard b y >> guard c z)) >> k)
row_lifted true true true x y z k = refl
row_lifted true true false x y z k = refl
row_lifted true false c x y z k = refl
row_lifted false b c x y z k = refl

and_false : (b : Bool) → (b && false) ≡ false
and_false true = refl
and_false false = refl

module _ {D : Type 0} where
  check_nulls-null_range :
      (n : ℕ) (e : Engine D) (first i : ℕ) → check_nulls n e first i ≡ null_range n e first i
  unfolding check_nulls null_range null_at
  check_nulls-null_range zero e first i = refl
  check_nulls-null_range (suc n) e first i =
      elim (Option-cases (find_record (e.history 1) (add64 first i))) [
        | inl gone ↦ rw (gone, check_nulls, null_range, null_at) refl
        | inr (c, there) ↦ elim (Bool-cases c.is_null) [
          | inl null ↦
              rw (there, null, check_nulls, null_range, null_at)
                (check_nulls-null_range n e first (i + 1))
          | inr content ↦ rw (there, content, check_nulls, null_range, null_at) refl
        ]
      ]

  check_clean_nulls-clean_null_range :
      (n : ℕ) (e : Engine D) (first i : ℕ)
      → check_clean_nulls n e first i ≡ clean_null_range n e first i
  unfolding check_clean_nulls clean_null_range clean_null_at null_at
  check_clean_nulls-clean_null_range zero e first i = refl
  check_clean_nulls-clean_null_range (suc n) e first i =
      elim (Option-cases (find_record (e.history 1) (add64 first i))) [
        | inl gone ↦ rw (gone, check_clean_nulls, clean_null_range, clean_null_at, null_at) refl
        | inr (c, there) ↦ elim (Bool-cases c.is_null) [
          | inr content ↦
              rw (there, content, check_clean_nulls, clean_null_range, clean_null_at, null_at) refl
          | inl null ↦ elim (Bool-cases c.transport_error) [
            | inl wrong ↦
                rw (there, null, wrong, check_clean_nulls, clean_null_range, clean_null_at, null_at)
                  refl
            | inr sound ↦ elim (Bool-cases c.discontinuity_indicator) [
              | inl jump ↦
                  rw
                    (
                      there, null, sound, jump, check_clean_nulls, clean_null_range, clean_null_at,
                      null_at,
                    )
                    refl
              | inr smooth ↦
                  rw
                    (
                      there, null, sound, smooth, check_clean_nulls, clean_null_range,
                      clean_null_at, null_at,
                    )
                    (check_clean_nulls-clean_null_range n e first (i + 1))
            ]
          ]
        ]
      ]

  -- Where nothing lies between anchor and gap on the primary side, there is no prefix to compare, and
  -- the two rows of checks agree.
  null_checks-null_plan :
      (e : Engine D) (primary : PacketRecord) (g : Gap)
      → g.primary_between ≡ 0
      → null_checks e primary g ≡ null_plan e primary g
  unfolding null_checks null_plan prefix_matches null_too_large check_ends
  null_checks-null_plan e primary g h =
      let nothing : prefix_matches g.primary_between e 0 ≡ true = rw (h, prefix_matches) refl in
      rw
        (
          nothing,
          check_nulls-null_range (add64 e.config.max_content_burst_packets 1) e
              (first_candidate e g) 0,
          check_clean_nulls-clean_null_range (missing_packets g) e (first_candidate e g) 0,
          row_lifted (not (ltb e.alignment.confidence e.config.min_alignment_confidence))
              (are_anchor (find_record (e.history 0) e.last_primary_anchor.primary_index)
                (find_record (e.history 1) e.last_primary_anchor.secondary_index))
              (not (primary.is_null || g.after.is_null || not (exact_match primary g.after)))
              (refuse RejectReason.low_alignment Reason.low_alignment)
              (refuse RejectReason.ambiguous Reason.before_anchor)
              (refuse RejectReason.ambiguous Reason.after_anchor)
              (clean_null_range (missing_packets g) e (first_candidate e g) 0),
        )
        refl

  null_insertion-IsAnnounced :
      (p : Status × Engine D) → (p.0 ≡ error → IsStuck p.1) → IsAnnounced true (null_insertion p)
  null_insertion-IsAnnounced (ok, e) h = inl refl
  null_insertion-IsAnnounced (error, e) h = inr (refl, h refl)

  judge-IsAnnounced :
      (e : Engine D) (primary : PacketRecord) (g : Gap) (plan : Step Verdict (Unit {0}))
      → null_plan e primary g ≡ plan
      → IsAnnounced
          ((judge (some (missing_packets g)) plan).valid && true)
          (insert_null e primary g plan)
  judge-IsAnnounced e primary g (stop none) h = inl refl
  judge-IsAnnounced e primary g (stop (some r)) h = inr refl
  judge-IsAnnounced e primary g (go u) h =
      null_insertion-IsAnnounced
        (insert_range (λ _. true) (missing_packets g) e (first_candidate e g) 0)
        (insert_range-IsStuck (λ _. true) (missing_packets g) e (e.history 1) (first_candidate e g)
          0 refl (null_plan-AllThere e primary g u h))

  -- On a gap that both functions look at: the region of null packets is inserted by the recovery, or
  -- the recovery fails because the sink has refused the last packet that it was offered, exactly where
  -- the validation accepts it and the packets are missing straight behind the anchor. Otherwise the
  -- recovery leaves the gap undecided or rejects it. So a region that is valid behind packets which
  -- both streams have after the anchor is not inserted.
  pub recover_null-validate_null :
      (e : Engine D) (primary : PacketRecord) (after : Option PacketRecord) (g : Gap)
      → position_gap e primary after ≡ some g
      → IsAnnounced
          ((validate_null e primary after).valid && g.primary_between == 0)
          (recover_null e primary after)
  unfolding recover_null validate_null
  recover_null-validate_null e primary after g gap = elim (Bool-cases (g.primary_between == 0)) [
    | inr far ↦
        let r : recover_null e primary after ≡ (undecided, e) = rw (gap, far, recover_null) refl in
        rw (r, far, and_false (validate_null e primary after).valid) (inl refl)
    | inl near ↦ elim (Bool-cases (missing_packets g == 0)) [
      | inl none_missing ↦
          let v : validate_null e primary after ≡ not_null_gap (some (missing_packets g)) =
            rw (gap, none_missing, validate_null) refl in
          let r : recover_null e primary after ≡ (undecided, e) =
            rw (gap, near, none_missing, recover_null) refl in
          rw (v, r) (inl refl)
      | inr some_missing ↦
          let at_anchor : g.primary_between ≡ 0 = ground arith in
          let v : validate_null e primary after
              ≡ judge (some (missing_packets g)) (null_checks e primary g) =
            rw (gap, some_missing, validate_null) refl in
          let r : recover_null e primary after ≡ insert_null e primary g (null_plan e primary g) =
            rw (gap, near, some_missing, recover_null) refl in
          rw (v, r, near, null_checks-null_plan e primary g at_anchor)
            (judge-IsAnnounced e primary g (null_plan e primary g) refl)
    ]
  ]

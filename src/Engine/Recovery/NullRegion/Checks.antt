-- ===== src/Engine/Recovery/NullRegion/Checks.antt =====
-- src/recovery_engine.c, `validate_null_position_candidate`: the same checks as those of
-- `try_recover_null_position_gap`, which the source writes out a second time, and one on the packets
-- between the anchor and the gap.
use two_stream_recovery.Base.{
  ℕ, zero, suc, ◌+◌, not, ◌||◌, ltb, ◌==◌, if◌then◌else◌, add64, Option, none, some,
}
use two_stream_recovery.Base.Step.{Step, go, stop, ◌>>◌, guard}
use two_stream_recovery.Stats.{RejectReason}
use two_stream_recovery.Engine.State.{Engine, PacketRecord}
use two_stream_recovery.Engine.History.{find_record}
use two_stream_recovery.Engine.Match.{are_anchor, exact_match}
use two_stream_recovery.Engine.Output.{Reason}
use two_stream_recovery.Engine.Recovery.{
  refuse, Validation, invalid, accepted, Gap, missing_packets, prefix_matches,
}
use two_stream_recovery.Engine.Recovery.Mixed.{Verdict, position_gap, first_candidate}

abbrev pub not_null_gap : Option ℕ → Validation
not_null_gap = invalid (refuse RejectReason.missing_candidate Reason.not_null_position_gap)

abbrev pub judge : Option ℕ → Step Verdict (Unit {0}) → Validation
judge missing (stop none) = not_null_gap missing
judge missing (stop (some r)) = invalid r missing
judge missing (go _) = accepted missing

module _ {D : Type 0} where
  -- The scan of a region that is larger than the limit, from the `i`-th packet on.
  unfoldable pub check_nulls : ℕ → Engine D → ℕ → ℕ → Step Verdict (Unit {0})
  check_nulls zero e first i = go tt
  check_nulls (suc rounds) e first i = elim (find_record (e.history 1) (add64 first i)) [
    | none ↦ stop (some (refuse RejectReason.missing_candidate Reason.missing_candidate))
    | some c ↦ if not c.is_null then stop none else check_nulls rounds e first (i + 1)
  ]

  -- The scan of a region within the limit.
  unfoldable pub check_clean_nulls : ℕ → Engine D → ℕ → ℕ → Step Verdict (Unit {0})
  check_clean_nulls zero e first i = go tt
  check_clean_nulls (suc rounds) e first i = elim (find_record (e.history 1) (add64 first i)) [
    | none ↦ stop (some (refuse RejectReason.missing_candidate Reason.missing_candidate))
    | some c ↦
        if not c.is_null
        then stop none
        else if c.transport_error
        then stop (some (refuse RejectReason.tei Reason.secondary_tei))
        else if c.discontinuity_indicator
        then stop (some (refuse RejectReason.discontinuity Reason.secondary_discontinuity))
        else check_clean_nulls rounds e first (i + 1)
  ]

  -- The checks of a region above the limit, and of one within it.
  unfoldable pub null_checks : Engine D → PacketRecord → Gap → Step Verdict (Unit {0})
  unfolding check_nulls check_clean_nulls
  null_checks e primary g =
      let within : Step Verdict (Unit {0}) = do
        guard (not (ltb e.alignment.confidence e.config.min_alignment_confidence))
            (some (refuse RejectReason.low_alignment Reason.low_alignment))
        guard
            (are_anchor (find_record (e.history 0) e.last_primary_anchor.primary_index)
              (find_record (e.history 1) e.last_primary_anchor.secondary_index))
            (some (refuse RejectReason.ambiguous Reason.before_anchor))
        guard (not (primary.is_null || g.after.is_null || not (exact_match primary g.after)))
            (some (refuse RejectReason.ambiguous Reason.after_anchor))
        guard (prefix_matches g.primary_between e 0)
            (some (refuse RejectReason.ambiguous Reason.stale_anchor_prefix))
        check_clean_nulls (missing_packets g) e (first_candidate e g) 0
      in let too_large : Step Verdict (Unit {0}) = do
        check_nulls (add64 e.config.max_content_burst_packets 1) e (first_candidate e g) 0
        stop (some (refuse RejectReason.burst_too_large Reason.null_burst_too_large))
        in if ltb e.config.max_content_burst_packets (missing_packets g) then too_large else within

  -- `validate_null_position_candidate`.
  unfoldable pub validate_null : Engine D → PacketRecord → Option PacketRecord → Validation
  unfolding position_gap null_checks
  validate_null e primary after = elim (position_gap e primary after) [
    | none ↦ not_null_gap none
    | some g ↦
        if missing_packets g == 0
        then not_null_gap (some (missing_packets g))
        else judge (some (missing_packets g)) (null_checks e primary g)
  ]

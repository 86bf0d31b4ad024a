-- ===== src/Engine/Recovery/Content/Checks.antt =====
-- src/recovery_engine.c, `validate_exact_content_candidate`: the same checks as those of
-- `try_recover_exact_content_gap`, which the source writes out a second time.
use two_stream_recovery.Base.{
  ℕ, zero, suc, ◌+◌, ◌-◌, ◌%◌, Bool, not, ◌&&◌, ◌||◌, ltb, ◌==◌, if◌then◌else◌, add64, Option, none,
  some, List, [], ◌∷◌,
}
use two_stream_recovery.Base.Step.{Step, go, stop, ◌>>=◌, ◌>>◌, guard, present}
use two_stream_recovery.Stats.{RejectReason}
use two_stream_recovery.Engine.State.{Engine, PacketRecord}
use two_stream_recovery.Engine.History.{find_record}
use two_stream_recovery.Engine.Match.{are_anchor, exact_match, fits}
use two_stream_recovery.Engine.Output.{Reason}
use two_stream_recovery.Engine.Recovery.{
  Refusal, refuse, Validation, invalid, accepted, Gap, fit_all,
}
use two_stream_recovery.Engine.Recovery.Content.{
  Missing, content_gap, content_missing, first_index, fallback,
}

abbrev pub not_content_gap : Option ℕ → Validation
not_content_gap = invalid (refuse RejectReason.missing_candidate Reason.not_content_gap)

abbrev pub judge : Option ℕ → Step Refusal (List PacketRecord) → Validation
judge missing (stop r) = invalid r missing
judge missing (go cs) = accepted missing

-- `possible` has the PID and the counter that are looked for.
unfoldable pub is_possible : PacketRecord → ℕ → ℕ → Bool
is_possible p pid cc = not p.is_null && p.has_payload && p.pid == pid && p.continuity_counter == cc

module _ {D : Type 0} where
  -- The loop over the secondary indices: `candidate` is the one that was found before.
  unfoldable pub sole_possible :
      ℕ → Engine D → ℕ → ℕ → ℕ → Option PacketRecord → Step Refusal (Option PacketRecord)
  unfolding is_possible
  sole_possible zero e pid cc index candidate = go candidate
  sole_possible (suc rounds) e pid cc index candidate = elim (find_record (e.history 1) index) [
    | none ↦ sole_possible rounds e pid cc (index + 1) candidate
    | some p ↦
        if not (is_possible p pid cc)
        then sole_possible rounds e pid cc (index + 1) candidate
        else elim candidate [
          | some q ↦ stop (refuse RejectReason.ambiguous Reason.multiple_candidates)
          | none ↦ sole_possible rounds e pid cc (index + 1) (some p)
        ]
  ]

  -- The candidate for one missing counter, and the checks on it.
  unfoldable pub check_candidate : Engine D → PacketRecord → Gap → ℕ → Step Refusal PacketRecord
  unfolding sole_possible
  check_candidate e primary g cc = do
    let first = first_index e g
    found ← sole_possible (g.after.stream_index - first) e primary.pid cc first none
    c ←
        present (fallback e g found)
          (refuse RejectReason.missing_candidate Reason.missing_candidate)
    guard (not c.is_null) (refuse RejectReason.wrong_pid Reason.null_candidate)
    guard (not c.transport_error) (refuse RejectReason.tei Reason.secondary_tei)
    guard (not c.discontinuity_indicator)
        (refuse RejectReason.discontinuity Reason.secondary_discontinuity)
    guard (c.pid == primary.pid) (refuse RejectReason.wrong_pid Reason.wrong_pid)
    guard (not (not c.has_payload || not (c.continuity_counter == cc)))
        (refuse RejectReason.wrong_counter Reason.wrong_counter)
    go c

  -- The loop over the missing counters, from the `i`-th on.
  unfoldable pub check_candidates :
      ℕ → Engine D → PacketRecord → Gap → ℕ → ℕ → Step Refusal (List PacketRecord)
  unfolding check_candidate
  check_candidates zero e primary g previous i = go []
  check_candidates (suc rounds) e primary g previous i = do
    c ← check_candidate e primary g (add64 (previous + 1) i % 16)
    cs ← check_candidates rounds e primary g previous (i + 1)
    go (c ∷ cs)

  -- The checks once the gap and the number of missing packets are known, with the candidates.
  unfoldable pub content_checks :
      Engine D → PacketRecord → Gap → Missing → Step Refusal (List PacketRecord)
  unfolding check_candidates
  content_checks e primary g m = do
    guard (not (ltb e.config.max_content_burst_packets m.count))
        (refuse RejectReason.burst_too_large Reason.burst_too_large)
    guard (not (ltb e.alignment.confidence e.config.min_alignment_confidence))
        (refuse RejectReason.low_alignment Reason.low_alignment)
    guard
        (are_anchor (find_record (e.history 0) e.last_primary_anchor.primary_index)
          (find_record (e.history 1) e.last_primary_anchor.secondary_index))
        (refuse RejectReason.ambiguous Reason.before_anchor)
    guard (not (primary.is_null || g.after.is_null || not (exact_match primary g.after)))
        (refuse RejectReason.ambiguous Reason.after_anchor)
    cs ← check_candidates m.count e primary g m.previous_cc 0
    states ←
        present (fit_all e.output_pid_state cs)
          (refuse RejectReason.wrong_counter Reason.secondary_wrong_counter)
    guard (fits states primary)
        (refuse RejectReason.wrong_counter Reason.after_anchor_wrong_counter)
    go cs

  -- `validate_exact_content_candidate`.
  unfoldable pub validate_content : Engine D → PacketRecord → Option PacketRecord → Validation
  unfolding content_gap content_missing
  validate_content e primary after = elim (content_gap e primary after) [
    | none ↦ not_content_gap none
    | some g ↦ elim (content_missing e primary g) [
      | none ↦ not_content_gap none
      | some m ↦
          if m.count == 0
          then not_content_gap (some m.count)
          else judge (some m.count) (content_checks e primary g m)
    ]
  ]

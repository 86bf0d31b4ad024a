-- ===== src/Engine/Recovery/Mixed.antt =====
-- src/recovery_engine.c, `validate_mixed_position_candidate` and `try_recover_mixed_position_gap`:
-- all packets, of any PID, that the secondary stream has between the anchors and the primary lacks.
use two_stream_recovery.Base.{
  ℕ, zero, suc, ◌+◌, Bool, true, false, not, ◌&&◌, ◌||◌, ltb, leb, ◌==◌, if◌then◌else◌, add64,
  Option, none, some,
}
use two_stream_recovery.Base.Step.{Step, go, stop, ◌>>=◌, ◌>>◌, guard, on_stop}
use two_stream_recovery.Stats.{RejectReason}
use two_stream_recovery.Engine.State.{Engine, PacketRecord, OutputPidState}
use two_stream_recovery.Engine.History.{find_record}
use two_stream_recovery.Engine.Match.{fits, observe_states, infer_missing}
use two_stream_recovery.Engine.Output.{Reason, Decision, undecided, previous_output_cc}
use two_stream_recovery.Engine.Recovery.{
  Refusal, refuse, Validation, invalid, accepted, Gap, missing_packets, gap_of, check_ends,
  prefix_matches, insert_range, insertion, refused,
}

-- The output states behind the candidates, and `saw_content`.
pub record Scan : Type 0 where
  pub states : ℕ → OutputPidState
  pub saw_content : Bool

-- The checks on one candidate.
unfoldable pub scan_candidate : Scan → Option PacketRecord → Step Refusal Scan
scan_candidate s none = stop (refuse RejectReason.missing_candidate Reason.missing_candidate)
scan_candidate s (some c) = do
  guard (not c.transport_error) (refuse RejectReason.tei Reason.secondary_tei)
  guard (not c.discontinuity_indicator)
      (refuse RejectReason.discontinuity Reason.secondary_discontinuity)
  guard (fits s.states c) (refuse RejectReason.wrong_counter Reason.candidate_counter_contradiction)
  go (record { states = observe_states s.states c; saw_content = s.saw_content || not c.is_null })

abbrev is_content_of : ℕ → Option PacketRecord → Bool
is_content_of pid none = false
is_content_of pid (some c) = not c.is_null && c.pid == pid

abbrev known_missing : Option ℕ → PacketRecord → Option ℕ
known_missing none primary = none
known_missing (some previous) primary = infer_missing previous primary

-- What ends a row of checks: a refusal, or (`none`) a gap that is not of this kind.
abbrev pub Verdict : Type 0
Verdict = Option Refusal

module _ {D : Type 0} where
  -- A gap with more packets on the secondary side.
  unfoldable pub position_gap : Engine D → PacketRecord → Option PacketRecord → Option Gap
  unfolding gap_of
  position_gap e primary after = elim (gap_of e primary after) [
    | none ↦ none
    | some g ↦ if leb g.secondary_between g.primary_between then none else some g
  ]

  -- `last_primary_anchor.secondary_index + primary_between + 1`.
  abbrev pub first_candidate : Engine D → Gap → ℕ
  first_candidate e g = add64 (add64 e.last_primary_anchor.secondary_index g.primary_between) 1

  -- The loop over the candidates, from the `i`-th on.
  unfoldable pub scan_range : ℕ → Engine D → ℕ → ℕ → Scan → Step Refusal Scan
  unfolding scan_candidate
  scan_range zero e first i s = go s
  scan_range (suc rounds) e first i s = do
    s' ← scan_candidate s (find_record (e.history 1) (add64 first i))
    scan_range rounds e first (i + 1) s'

  -- `matching_pid_count == 0`.
  unfoldable pub no_content_of : ℕ → Engine D → ℕ → ℕ → ℕ → Bool
  no_content_of zero e pid first i = true
  no_content_of (suc rounds) e pid first i =
      not (is_content_of pid (find_record (e.history 1) (add64 first i)))
      && no_content_of rounds e pid first (i + 1)

  -- Why the primary does not fit behind the candidates: they hold no packet of its PID though its
  -- counter shows some to be missing, or the counter is wrong.
  unfoldable pub misfit : Engine D → PacketRecord → Gap → Refusal
  unfolding no_content_of infer_missing previous_output_cc
  misfit e primary g = elim (known_missing (previous_output_cc e primary) primary) [
    | none ↦ refuse RejectReason.wrong_counter Reason.after_anchor_wrong_counter
    | some k ↦
        if leb k (missing_packets g)
          && no_content_of (missing_packets g) e primary.pid (first_candidate e g) 0
        then refuse RejectReason.wrong_pid Reason.wrong_pid
        else refuse RejectReason.wrong_counter Reason.after_anchor_wrong_counter
  ]

  -- The scan of the candidates, then the primary behind them. `stop none` is a gap of null packets
  -- only.
  unfoldable pub mixed_tail : Engine D → PacketRecord → Gap → Step Verdict (Unit {0})
  unfolding misfit
  mixed_tail e primary g = do
    s ← on_stop some (
        scan_range (missing_packets g) e (first_candidate e g) 0
          (record { states = e.output_pid_state; saw_content = false }))
    guard s.saw_content none
    guard (fits s.states primary) (some (misfit e primary g))

  -- The checks before the prefix, the same in both functions.
  unfoldable pub mixed_head : Engine D → PacketRecord → Gap → Step Refusal (Unit {0})
  mixed_head e primary g = do
    guard (not (ltb e.config.max_content_burst_packets (missing_packets g)))
        (refuse RejectReason.burst_too_large Reason.mixed_burst_too_large)
    check_ends e primary g

  -- The checks of `validate_mixed_position_candidate`, where an unmatched prefix is refused.
  unfoldable pub mixed_checks : Engine D → PacketRecord → Gap → Step Verdict (Unit {0})
  unfolding mixed_head
  mixed_checks e primary g = do
    on_stop some (mixed_head e primary g)
    guard (prefix_matches g.primary_between e 0)
        (some (refuse RejectReason.ambiguous Reason.stale_anchor_prefix))
    mixed_tail e primary g

  -- Those of `try_recover_mixed_position_gap`, where it ends the attempt in silence.
  unfoldable pub mixed_plan : Engine D → PacketRecord → Gap → Step Verdict (Unit {0})
  unfolding mixed_head
  mixed_plan e primary g = do
    on_stop some (mixed_head e primary g)
    guard (prefix_matches g.primary_between e 0) none
    mixed_tail e primary g

abbrev not_mixed_gap : Option ℕ → Validation
not_mixed_gap = invalid (refuse RejectReason.missing_candidate Reason.not_mixed_position_gap)

abbrev judge : Option ℕ → Step Verdict (Unit {0}) → Validation
judge missing (stop none) = not_mixed_gap missing
judge missing (stop (some r)) = invalid r missing
judge missing (go _) = accepted missing

module _ {D : Type 0} where
  -- `validate_mixed_position_candidate`.
  unfoldable pub validate_mixed : Engine D → PacketRecord → Option PacketRecord → Validation
  unfolding position_gap
  validate_mixed e primary after = elim (position_gap e primary after) [
    | none ↦ not_mixed_gap none
    | some g ↦
        if missing_packets g == 0
        then not_mixed_gap (some (missing_packets g))
        else judge (some (missing_packets g)) (mixed_checks e primary g)
  ]

  abbrev pub insert_mixed :
      Engine D → PacketRecord → Gap → Step Verdict (Unit {0}) → Decision × Engine D
  insert_mixed e primary g (stop none) = (undecided, e)
  insert_mixed e primary g (stop (some r)) = refused e primary (missing_packets g) r
  insert_mixed e primary g (go _) =
      insertion (insert_range (λ c. c.is_null) (missing_packets g) e (first_candidate e g) 0)
        (missing_packets g)

  -- `try_recover_mixed_position_gap`.
  unfoldable pub recover_mixed : Engine D → PacketRecord → Option PacketRecord → Decision × Engine D
  unfolding position_gap
  recover_mixed e primary after = elim (position_gap e primary after) [
    | none ↦ (undecided, e)
    | some g ↦
        if missing_packets g == 0
        then (undecided, e)
        else insert_mixed e primary g (mixed_plan e primary g)
  ]

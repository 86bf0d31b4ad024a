-- ===== src/Engine/Recovery/Tei.antt =====
-- src/recovery_engine.c, `try_recover_primary_tei_packet`: the secondary copy of a primary packet
-- that arrived with the transport error indicator.
pub mod Replaced
use two_stream_recovery.Base.{
  ℕ, ◌+◌, ◌-◌, ◌^◌, Bool, true, false, not, ◌&&◌, ◌||◌, ltb, leb, ◌==◌, if◌then◌else◌, add64,
  Option, none, some, List, [], ◌∷◌,
}
use two_stream_recovery.Base.Step.{Step, go, stop, ◌>>=◌, ◌>>◌, guard, present}
use two_stream_recovery.Stats.{RejectReason}
use two_stream_recovery.Engine.State.{Engine, PacketRecord}
use two_stream_recovery.Engine.History.{find_record}
use two_stream_recovery.Engine.Match.{are_anchor, fits}
use two_stream_recovery.Engine.Alignment.{aligned_secondary}
use two_stream_recovery.Engine.Output.{Reason, Decision, undecided}
use two_stream_recovery.Engine.Recovery.{Refusal, refuse, insert_all, insertion, refused}

module _ {D : Type 0} where
  -- The record of the secondary stream behind the candidate.
  unfoldable pub record_after : Engine D → PacketRecord → Option PacketRecord
  record_after e c =
      if c.stream_index == 2 ^ 64 - 1
      then none
      else find_record (e.history 1) (add64 c.stream_index 1)

  -- The checks, in the order of the source, up to the candidate that is output.
  unfoldable pub tei_plan : Engine D → PacketRecord → Step Refusal PacketRecord
  unfolding record_after
  tei_plan e primary = do
    guard (not (primary.is_null || not primary.has_payload || primary.discontinuity_indicator)) (
        if primary.discontinuity_indicator
        then refuse RejectReason.discontinuity Reason.primary_discontinuity
        else refuse RejectReason.wrong_pid Reason.primary_not_content)
    guard (not (ltb e.alignment.confidence e.config.min_alignment_confidence))
        (refuse RejectReason.low_alignment Reason.low_alignment)
    guard
        (are_anchor (find_record (e.history 0) e.last_primary_anchor.primary_index)
          (find_record (e.history 1) e.last_primary_anchor.secondary_index))
        (refuse RejectReason.ambiguous Reason.before_anchor)
    c ←
        present (aligned_secondary e primary)
          (refuse RejectReason.missing_candidate Reason.missing_candidate)
    guard (not c.transport_error) (refuse RejectReason.tei Reason.secondary_tei)
    guard (not c.discontinuity_indicator)
        (refuse RejectReason.discontinuity Reason.secondary_discontinuity)
    guard (not (c.is_null || not c.has_payload || not (c.pid == primary.pid)))
        (refuse RejectReason.wrong_pid Reason.wrong_pid)
    guard (c.continuity_counter == primary.continuity_counter)
        (refuse RejectReason.wrong_counter Reason.wrong_counter)
    guard (are_anchor (find_record (e.history 0) (add64 primary.stream_index 1)) (record_after e c))
        (refuse RejectReason.ambiguous Reason.no_after_anchor)
    guard (fits e.output_pid_state c)
        (refuse RejectReason.wrong_counter Reason.secondary_wrong_counter)
    go c

  abbrev pub replace : Engine D → PacketRecord → Step Refusal PacketRecord → Decision × Engine D
  replace e primary (stop r) = refused e primary 0 r
  replace e primary (go c) = insertion (insert_all (λ _. false) e (c ∷ [])) 1

  -- `try_recover_primary_tei_packet`.
  unfoldable pub recover_tei : Engine D → PacketRecord → Decision × Engine D
  recover_tei e primary =
      if not primary.transport_error then (undecided, e) else replace e primary (tei_plan e primary)

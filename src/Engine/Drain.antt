-- ===== src/Engine/Drain.antt =====
-- src/recovery_engine.c, `recovery_engine_drain`: the delayed output of the primary stream.
pub mod Loop
pub mod Kept
pub mod Taken
pub mod Queues
pub mod Rounds
pub mod Ends
pub mod Flush
use two_stream_recovery.Base.{
  ℕ, zero, suc, ◌+◌, Bool, true, false, not, ◌&&◌, ◌||◌, ltb, ◌==◌, if◌then◌else◌, Option, none,
  some, List, [], ◌∷◌, length,
}
use two_stream_recovery.Base.Step.{Step, go, stop, ◌>>=◌, ◌>>◌}
use two_stream_recovery.Stats.{RejectReason}
use two_stream_recovery.Engine.State.{Engine, PacketRecord, Status, ok, error}
use two_stream_recovery.Engine.Queue.{front}
use two_stream_recovery.Engine.Match.{fits, exact_match, infer_missing}
use two_stream_recovery.Engine.Alignment.{aligned_secondary}
use two_stream_recovery.Engine.Boundary.{Candidates, boundary_matches, candidate_record}
use two_stream_recovery.Engine.Output.{
  Reason, Decision, undecided, inserted, rejected, failed, read_clock, output_record,
  set_active_output, previous_output_cc, reject,
}
use two_stream_recovery.Engine.Outage.{
  too_young, drain_secondary, return_holdoff_elapsed, pop_primary, discard_output_by_secondary,
}
use two_stream_recovery.Engine.Recovery.Content.{recover_content}
use two_stream_recovery.Engine.Recovery.Content.Checks.{validate_content}
use two_stream_recovery.Engine.Recovery.Mixed.{validate_mixed, recover_mixed}
use two_stream_recovery.Engine.Recovery.NullRegion.{recover_null}
use two_stream_recovery.Engine.Recovery.NullRegion.Checks.{validate_null}
use two_stream_recovery.Engine.Recovery.Tei.{recover_tei}
use two_stream_recovery.Engine.Recovery.Unique.{Validator, Recovery, recover_unique}

-- The local variables of one round, as the attempts at a recovery change them.
pub record Attempt (D : Type 0) : Type 0 where
  pub engine : Engine D
  pub primary_fits : Bool
  pub logged_recovery_decision : Bool
  pub inserted_recovery : Bool

-- How a round ends: the loop goes on, it breaks, or the function returns.
pub data Round (D : Type 0) : Type 0 where
  again : Engine D → Round D
  leave : Engine D → Round D
  done : Status → Engine D → Round D

abbrev pub missing_for : Option ℕ → PacketRecord → Option ℕ
missing_for none primary = none
missing_for (some previous) primary = infer_missing previous primary

module _ {D : Type 0} where
  -- What a stage makes of its decision; `stop` is the return of -1.
  abbrev pub after_stage :
      Attempt D → PacketRecord → Decision × Engine D → Step (Engine D) (Attempt D)
  after_stage a primary (failed, e) = stop e
  after_stage a primary (undecided, e) = go (record a { engine = e })
  after_stage a primary (inserted, e) = go (record {
    engine = e;
    primary_fits = fits e.output_pid_state primary;
    logged_recovery_decision = true;
    inserted_recovery = true;
  })
  after_stage a primary (rejected, e) = go (record {
    engine = e;
    primary_fits = fits e.output_pid_state primary;
    logged_recovery_decision = true;
    inserted_recovery = false;
  })

  -- One of the three calls of `try_unique_candidate_recovery`, under its conditions.
  unfoldable pub stage :
      PacketRecord
      → Candidates
      → Validator D
      → Recovery D
      → Bool
      → Bool
      → Attempt D
      → Step (Engine D) (Attempt D)
  stage primary cs validator recover log_no_valid only_misfit a =
      if not a.inserted_recovery
        && not a.logged_recovery_decision
        && not (only_misfit && a.primary_fits)
        && a.engine.last_primary_anchor.valid
        && ltb 0 (length cs.records)
      then after_stage a primary (recover_unique a.engine primary cs validator recover log_no_valid)
      else go a

  -- The three stages in their order.
  unfoldable pub stages : PacketRecord → Candidates → Attempt D → Step (Engine D) (Attempt D)
  stages primary cs a0 = do
    a1 ← stage primary cs validate_null recover_null false false a0
    a2 ← stage primary cs validate_mixed recover_mixed false false a1
    stage primary cs validate_content recover_content true true a2

  -- The refusal of a primary packet that does not fit and that no stage has dealt with.
  unfoldable pub refuse_misfit : Engine D → PacketRecord → Candidates → Engine D
  unfolding previous_output_cc infer_missing
  refuse_misfit e primary cs =
      let missing = missing_for (previous_output_cc e primary) primary in
      if ltb e.alignment.confidence e.config.min_alignment_confidence
      then reject e primary missing RejectReason.low_alignment Reason.low_alignment
      else if e.last_primary_anchor.valid && length cs.records == 0
      then reject e primary missing RejectReason.ambiguous Reason.no_after_anchor
      else if cs.truncated
      then reject e primary missing RejectReason.ambiguous Reason.too_many_after_anchors
      else reject e primary missing RejectReason.missing_candidate
          Reason.missing_anchor_or_candidate

  -- `update_primary_anchor`.
  unfoldable pub update_anchor : Engine D → PacketRecord → Option PacketRecord → Engine D
  unfolding exact_match
  update_anchor e primary none = e
  update_anchor e primary (some m) =
      if primary.is_null || m.is_null || not (exact_match primary m) then e else record e {
        last_primary_anchor = record {
          valid = true;
          primary_index = primary.stream_index;
          secondary_index = m.stream_index;
        };
      }

  abbrev pub remember_gap : Engine D → PacketRecord → Engine D
  remember_gap e primary = record e {
    primary_gap = record e.primary_gap {
      valid = true;
      arrival_time_ns = primary.arrival_time_ns;
      continuity_errors = primary.stream_continuity_errors;
      duplicate_counters = primary.stream_duplicate_counters;
    };
  }

  abbrev pub after_output : PacketRecord → Option PacketRecord → Status × Engine D → Round D
  after_output primary m (error, e) = done error e
  after_output primary m (ok, e) =
      again (pop_primary (remember_gap (update_anchor e primary m) primary))

  -- The end of a round: the refusal that is due, and the primary packet itself.
  unfoldable pub finish_round :
      PacketRecord → Candidates → Option PacketRecord → Step (Engine D) (Attempt D) → Round D
  unfolding refuse_misfit update_anchor pop_primary
  finish_round primary cs m (stop e) = done error e
  finish_round primary cs m (go a) = after_output primary m (
      output_record
        (if not a.primary_fits && not a.logged_recovery_decision
          then refuse_misfit a.engine primary cs
          else a.engine)
        primary)

  abbrev first_record : Engine D → List ℕ → Option PacketRecord
  first_record e [] = none
  first_record e (slot ∷ slots) = some (candidate_record e slot)

  -- `anchor_secondary_match`: the only candidate, or else the aligned record.
  unfoldable pub anchor_match : Engine D → PacketRecord → Candidates → Option PacketRecord
  anchor_match e primary cs =
      if length cs.records == 1 && not cs.truncated
      then first_record e cs.records
      else aligned_secondary e primary

  -- `try_recover_primary_tei_packet` first; the packet that it inserted stands for the primary one.
  abbrev pub after_tei :
      PacketRecord → Candidates → Option PacketRecord → Bool → Decision × Engine D → Round D
  after_tei primary cs m was_fit (failed, e) = done error e
  after_tei primary cs m was_fit (inserted, e) = again (pop_primary e)
  after_tei primary cs m was_fit (undecided, e) = finish_round primary cs m (
      stages primary cs (record {
        engine = e;
        primary_fits = was_fit;
        logged_recovery_decision = false;
        inserted_recovery = false;
      }))
  after_tei primary cs m was_fit (rejected, e) = finish_round primary cs m (
      stages primary cs (record {
        engine = e;
        primary_fits = was_fit;
        logged_recovery_decision = true;
        inserted_recovery = false;
      }))

  -- A round from the search for candidates on.
  unfoldable pub process : Engine D → PacketRecord → Round D
  unfolding anchor_match
  process e0 primary =
      let cs = boundary_matches e0 primary in
      let e = record e0 {
        decision_candidate_count = length cs.records;
        decision_candidates_truncated = cs.truncated;
      } in
      after_tei primary cs (anchor_match e primary cs) (fits e.output_pid_state primary)
        (recover_tei e primary)

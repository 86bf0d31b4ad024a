-- ===== src/Engine/Recovery/NullRegion.antt =====
-- src/recovery_engine.c, `try_recover_null_position_gap`: a run of null packets that the primary stream
-- lacks.
pub mod Checks
pub mod Position
use two_stream_recovery.Base.{
  ℕ, zero, suc, ◌+◌, Bool, true, false, not, ◌&&◌, ◌||◌, ltb, leb, ◌==◌, if◌then◌else◌, add64,
  Option, none, some,
}
use two_stream_recovery.Base.Step.{Step, go, stop, ◌>>=◌, ◌>>◌, guard, on_stop}
use two_stream_recovery.Stats.{RejectReason}
use two_stream_recovery.Engine.State.{Engine, PacketRecord, Status, ok, error}
use two_stream_recovery.Engine.History.{find_record}
use two_stream_recovery.Engine.Output.{Reason, Decision, inserted, failed, undecided}
use two_stream_recovery.Engine.Recovery.{
  Refusal, refuse, Validation, invalid, accepted, Gap, missing_packets, check_ends, prefix_matches,
  insert_range, refused,
}
use two_stream_recovery.Engine.Recovery.Mixed.{Verdict, position_gap, first_candidate}

-- `candidate == NULL`, then `!candidate->is_null`.
unfoldable pub null_at : Option PacketRecord → Step Verdict PacketRecord
null_at none = stop (some (refuse RejectReason.missing_candidate Reason.missing_candidate))
null_at (some c) = if c.is_null then go c else stop none

-- These, then the checks for errors.
unfoldable pub clean_null_at : Option PacketRecord → Step Verdict (Unit {0})
unfolding null_at
clean_null_at found = do
  c ← null_at found
  guard (not c.transport_error) (some (refuse RejectReason.tei Reason.secondary_tei))
  guard (not c.discontinuity_indicator)
      (some (refuse RejectReason.discontinuity Reason.secondary_discontinuity))

module _ {D : Type 0} where
  -- The scan of a region that is larger than the limit.
  unfoldable pub null_range : ℕ → Engine D → ℕ → ℕ → Step Verdict (Unit {0})
  null_range zero e first i = go tt
  null_range (suc rounds) e first i = do
    c ← null_at (find_record (e.history 1) (add64 first i))
    null_range rounds e first (i + 1)

  -- The scan of a region within the limit.
  unfoldable pub clean_null_range : ℕ → Engine D → ℕ → ℕ → Step Verdict (Unit {0})
  clean_null_range zero e first i = go tt
  clean_null_range (suc rounds) e first i = do
    clean_null_at (find_record (e.history 1) (add64 first i))
    clean_null_range rounds e first (i + 1)

  -- A region above the limit is refused if its first packets are null.
  unfoldable pub null_too_large : Engine D → Gap → Step Verdict (Unit {0})
  null_too_large e g = do
    null_range (add64 e.config.max_content_burst_packets 1) e (first_candidate e g) 0
    stop (some (refuse RejectReason.burst_too_large Reason.null_burst_too_large))

  -- The checks of `try_recover_null_position_gap`, where nothing lies between anchor and gap.
  unfoldable pub null_plan : Engine D → PacketRecord → Gap → Step Verdict (Unit {0})
  unfolding null_too_large
  null_plan e primary g =
      let within : Step Verdict (Unit {0}) = do
        on_stop some (check_ends e primary g)
        clean_null_range (missing_packets g) e (first_candidate e g) 0
      in if ltb e.config.max_content_burst_packets (missing_packets g)
        then null_too_large e g
        else within

module _ {D : Type 0} where
  abbrev pub null_insertion : Status × Engine D → Decision × Engine D
  null_insertion (ok, e) = (inserted, e)
  null_insertion (error, e) = (failed, e)

  abbrev pub insert_null :
      Engine D → PacketRecord → Gap → Step Verdict (Unit {0}) → Decision × Engine D
  insert_null e primary g (stop none) = (undecided, e)
  insert_null e primary g (stop (some r)) = refused e primary (missing_packets g) r
  insert_null e primary g (go _) =
      null_insertion (insert_range (λ _. true) (missing_packets g) e (first_candidate e g) 0)

  -- `try_recover_null_position_gap`.
  unfoldable pub recover_null : Engine D → PacketRecord → Option PacketRecord → Decision × Engine D
  unfolding position_gap null_plan
  recover_null e primary after = elim (position_gap e primary after) [
    | none ↦ (undecided, e)
    | some g ↦
        if not (g.primary_between == 0) || missing_packets g == 0
        then (undecided, e)
        else insert_null e primary g (null_plan e primary g)
  ]

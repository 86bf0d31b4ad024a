-- ===== src/Engine/Drain/Taken.antt =====
-- src/recovery_engine.c, `recovery_engine_drain`: it succeeds while the sink takes every packet.
use two_stream_recovery.Base.{
  length, false, ltb, true, ◌∙◌, ◌&&◌, ap, if◌then◌else◌, arith, not, ◌≢◌, Option, ◌≡◌, Bool, refl,
}
use two_stream_recovery.Engine.Outage.{pop_primary}
use two_stream_recovery.Engine.Recovery.Content.{recover_content}
use two_stream_recovery.Engine.Recovery.Content.Checks.{validate_content}
use two_stream_recovery.Engine.Recovery.Kept.{
  recover_unique-Keeps, IsKeeping, recover_tei-Keeps, recover_null-Keeps, recover_mixed-Keeps,
  recover_content-Keeps,
}
use two_stream_recovery.Engine.Recovery.Mixed.{recover_mixed, validate_mixed}
use two_stream_recovery.Engine.Drain.Kept.{either-Keeps, update_anchor-Holds, refuse_misfit-Keeps}
use two_stream_recovery.Engine.Drain.{
  done, refuse_misfit, after_output, leave, after_stage, after_tei, again, stage, process, stages,
  finish_round, Attempt, Round,
}
use two_stream_recovery.Engine.Recovery.NullRegion.{recover_null}
use two_stream_recovery.Engine.Recovery.NullRegion.Checks.{validate_null}
use two_stream_recovery.Base.Step.{go, ◌>>=◌, stop, Step}
use two_stream_recovery.Engine.State.{Engine, PacketRecord, Status, ok, error}
use two_stream_recovery.Engine.Output.{Decision, undecided, inserted, rejected, failed}
use two_stream_recovery.Engine.Output.Clean.{Keeps, Keeps-trans, Keeps-refl, output_record-Keeps}
use two_stream_recovery.Engine.Boundary.{Candidates, boundary_matches}
use two_stream_recovery.Engine.Recovery.Taken.{
  Succeeds, recover_tei-never, recover_unique-never, recover_null-Succeeds, recover_mixed-Succeeds,
  recover_content-Succeeds,
}
use two_stream_recovery.Engine.Recovery.There.{TakesAll, TakesAll-after, output_record-ok}
use two_stream_recovery.Engine.Recovery.Unique.{Validator, Recovery, recover_unique}

module _ {D : Type 0} where
  -- The row of stages has not ended with the error of the sink.
  abbrev HasGone : Step (Engine D) (Attempt D) → Type 0
  HasGone (stop e) = ⊥
  HasGone (go a) = TakesAll a.engine

  after_stage-HasGone :
      (a : Attempt D) (primary : PacketRecord) (p : Decision × Engine D)
      → p.0 ≢ failed
      → TakesAll p.1
      → HasGone (after_stage a primary p)
  after_stage-HasGone a primary (failed, e) h t = absurd (h refl)
  after_stage-HasGone a primary (undecided, e) h t = t
  after_stage-HasGone a primary (inserted, e) h t = t
  after_stage-HasGone a primary (rejected, e) h t = t

  if-HasGone :
      (b : Bool) (s t : Step (Engine D) (Attempt D))
      → HasGone s
      → HasGone t
      → HasGone (if b then s else t)
  if-HasGone true s t h k = h
  if-HasGone false s t h k = k

  stage-HasGone :
      (primary : PacketRecord) (cs : Candidates) (validator : Validator D) (recover : Recovery D)
      (log_no_valid only_misfit : Bool) (a : Attempt D)
      → IsKeeping recover
      → Succeeds recover
      → TakesAll a.engine
      → HasGone (stage primary cs validator recover log_no_valid only_misfit a)
  unfolding stage
  stage-HasGone primary cs validator recover log_no_valid only_misfit a r s t =
      let p = recover_unique a.engine primary cs validator recover log_no_valid in
      if-HasGone
        (not a.inserted_recovery
          && not a.logged_recovery_decision
          && not (only_misfit && a.primary_fits)
          && a.engine.last_primary_anchor.valid
          && ltb 0 (length cs.records))
        (after_stage a primary p) (go a)
        (after_stage-HasGone a primary p
          (recover_unique-never a.engine primary cs validator recover log_no_valid s t)
          (TakesAll-after a.engine _
            (recover_unique-Keeps a.engine primary cs validator recover log_no_valid r) t))
        t

  then-HasGone :
      (s : Step (Engine D) (Attempt D)) (f : Attempt D → Step (Engine D) (Attempt D))
      → HasGone s
      → ((a : Attempt D) → TakesAll a.engine → HasGone (f a))
      → HasGone (s >>= f)
  then-HasGone (stop e) f h k = h
  then-HasGone (go a) f h k = k a h

  stages-HasGone :
      (primary : PacketRecord) (cs : Candidates) (a : Attempt D)
      → TakesAll a.engine
      → HasGone (stages primary cs a)
  unfolding stages
  stages-HasGone primary cs a t =
      let null_stage = stage primary cs validate_null recover_null false false in
      let mixed_stage = stage primary cs validate_mixed recover_mixed false false in
      let content_stage = stage primary cs validate_content recover_content true true in
      then-HasGone (null_stage a) (λ a1. mixed_stage a1 >>= content_stage)
        (stage-HasGone primary cs validate_null recover_null false false a recover_null-Keeps
          recover_null-Succeeds t)
        (λ a1 t1.
          then-HasGone (mixed_stage a1) content_stage
            (stage-HasGone primary cs validate_mixed recover_mixed false false a1
              recover_mixed-Keeps recover_mixed-Succeeds t1)
            (λ a2 t2.
              stage-HasGone primary cs validate_content recover_content true true a2
                recover_content-Keeps recover_content-Succeeds t2))

  -- The round does not end the function, unless it is because all is well.
  abbrev pub HasPassed : Round D → Type 0
  HasPassed (again e) = TakesAll e
  HasPassed (leave e) = TakesAll e
  HasPassed (done s e) = s ≡ ok

  after_output-HasPassed :
      (primary : PacketRecord) (m : Option PacketRecord) (p : Status × Engine D)
      → p.0 ≡ ok
      → TakesAll p.1
      → HasPassed (after_output primary m p)
  unfolding pop_primary
  after_output-HasPassed primary m (error, e) h t = cc
  after_output-HasPassed primary m (ok, e) h t =
      λ n. ap (λ f. f n) (update_anchor-Holds e primary m).accepts ∙ t n

  finish_round-HasPassed :
      (primary : PacketRecord) (cs : Candidates) (m : Option PacketRecord)
      (s : Step (Engine D) (Attempt D))
      → HasGone s
      → HasPassed (finish_round primary cs m s)
  unfolding finish_round
  finish_round-HasPassed primary cs m (stop e) h = elim h [ ]
  finish_round-HasPassed primary cs m (go a) h =
      let e =
        if not a.primary_fits && not a.logged_recovery_decision
        then refuse_misfit a.engine primary cs
        else a.engine in
      let kept : Keeps a.engine e =
        either-Keeps a.engine (not a.primary_fits && not a.logged_recovery_decision) _ _
          (refuse_misfit-Keeps a.engine primary cs) (Keeps-refl a.engine) in
      let t = TakesAll-after a.engine e kept h in
      after_output-HasPassed primary m _ (output_record-ok e primary t)
        (TakesAll-after e _ (output_record-Keeps e primary) t)

  after_tei-HasPassed :
      (primary : PacketRecord) (cs : Candidates) (m : Option PacketRecord) (b : Bool)
      (p : Decision × Engine D)
      → p.0 ≢ failed
      → TakesAll p.1
      → HasPassed (after_tei primary cs m b p)
  unfolding pop_primary
  after_tei-HasPassed primary cs m b (failed, e) h t = absurd (h refl)
  after_tei-HasPassed primary cs m b (inserted, e) h t = t
  after_tei-HasPassed primary cs m b (undecided, e) h t =
      finish_round-HasPassed primary cs m _ (stages-HasGone primary cs _ t)
  after_tei-HasPassed primary cs m b (rejected, e) h t =
      finish_round-HasPassed primary cs m _ (stages-HasGone primary cs _ t)

  pub process-HasPassed :
      (e : Engine D) (primary : PacketRecord) → TakesAll e → HasPassed (process e primary)
  unfolding process
  process-HasPassed e0 primary t =
      let cs = boundary_matches e0 primary in
      after_tei-HasPassed primary cs _ _ _ (recover_tei-never _ primary t)
        (TakesAll-after e0 _ (Keeps-trans e0 _ _ (ground arith) (recover_tei-Keeps _ primary)) t)

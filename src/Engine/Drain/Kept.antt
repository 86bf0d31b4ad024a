-- ===== src/Engine/Drain/Kept.antt =====
-- src/recovery_engine.c, `recovery_engine_drain`: what the attempts of one round keep, and what a
-- whole round does to the queues.
use two_stream_recovery.Engine.Drain.{
  recover_content, validate_content, recover_mixed, validate_mixed, recover_null, validate_null, go,
  stop, ◌>>=◌, Option, Step, Bool, Attempt, Round, again, leave, done, after_stage, stage, stages,
  refuse_misfit, update_anchor, after_output, finish_round, after_tei, process, missing_for,
}
use two_stream_recovery.Base.{
  ◌==◌, length, ltb, ◌&&◌, not, false, true, none, if◌then◌else◌, ap, some, refl, ◌≡◌, Option,
  arith, Bool,
}
use mathlib.Core.Bool.{not, false, true}
use mathlib.Core.Option.{none}
use two_stream_recovery.Stats.{RejectReason}
use two_stream_recovery.Engine.State.{Engine, PacketRecord, Status, ok, error}
use two_stream_recovery.Engine.Queue.{pop}
use two_stream_recovery.Engine.Output.{
  Decision, undecided, inserted, rejected, failed, Reason, previous_output_cc,
}
use two_stream_recovery.Engine.Output.Clean.{Keeps, Keeps-refl, Keeps-trans, output_record-Keeps}
use two_stream_recovery.Engine.Boundary.{Candidates, boundary_matches}
use two_stream_recovery.Engine.Outage.{pop_primary}
use two_stream_recovery.Engine.Recovery.Kept.{
  IsKeeping, reject-Keeps, recover_tei-Keeps, recover_unique-Keeps, recover_null-Keeps,
  recover_mixed-Keeps, recover_content-Keeps,
}
use two_stream_recovery.Engine.Recovery.Unique.{Validator, Recovery, recover_unique}

module _ {D : Type 0} where
  -- What a drain never touches, and the queues.
  pub record Holds (e e' : Engine D) : Type 0 where
    pub accepts : e'.env.accepts ≡ e.env.accepts
    pub history : e'.history ≡ e.history
    pub config : e'.config ≡ e.config
    pub next : e'.next_stream_index ≡ e.next_stream_index
    pub alignment : e'.alignment ≡ e.alignment
    pub active : e'.active_output_stream_id ≡ e.active_output_stream_id
    pub primary_queue : e'.primary_queue ≡ e.primary_queue
    pub secondary_queue : e'.secondary_queue ≡ e.secondary_queue

  pub Keeps-Holds : (e e' : Engine D) → Keeps e e' → Holds e e'
  Keeps-Holds e e' k = ground arith

  pub Holds-refl : (e : Engine D) → Holds e e
  Holds-refl e = ground arith

  pub Holds-trans : (a b c : Engine D) → Holds a b → Holds b c → Holds a c
  Holds-trans a b c h k = ground arith

  pub Holds-pop : (a b : Engine D) → Holds a b → Holds (pop_primary a) (pop_primary b)
  unfolding pop_primary
  Holds-pop a b h = ground (arith, ap pop h.primary_queue)

  abbrev pub engine_of : Step (Engine D) (Attempt D) → Engine D
  engine_of (stop e) = e
  engine_of (go a) = a.engine

  after_stage-Keeps :
      (e : Engine D) (a : Attempt D) (primary : PacketRecord) (p : Decision × Engine D)
      → Keeps e p.1
      → Keeps e (engine_of (after_stage a primary p))
  after_stage-Keeps e a primary (failed, e') k = k
  after_stage-Keeps e a primary (undecided, e') k = k
  after_stage-Keeps e a primary (inserted, e') k = k
  after_stage-Keeps e a primary (rejected, e') k = k

  if-Keeps :
      (e : Engine D) (b : Bool) (s t : Step (Engine D) (Attempt D))
      → Keeps e (engine_of s)
      → Keeps e (engine_of t)
      → Keeps e (engine_of (if b then s else t))
  if-Keeps e true s t h k = h
  if-Keeps e false s t h k = k

  stage-Keeps :
      (e : Engine D) (primary : PacketRecord) (cs : Candidates) (validator : Validator D)
      (recover : Recovery D) (log_no_valid only_misfit : Bool) (a : Attempt D)
      → IsKeeping recover
      → Keeps e a.engine
      → Keeps e (engine_of (stage primary cs validator recover log_no_valid only_misfit a))
  unfolding stage
  stage-Keeps e primary cs validator recover log_no_valid only_misfit a r k =
      let p = recover_unique a.engine primary cs validator recover log_no_valid in
      if-Keeps e
        (not a.inserted_recovery
          && not a.logged_recovery_decision
          && not (only_misfit && a.primary_fits)
          && a.engine.last_primary_anchor.valid
          && ltb 0 (length cs.records))
        (after_stage a primary p) (go a)
        (after_stage-Keeps e a primary p (
          Keeps-trans e a.engine _ k
            (recover_unique-Keeps a.engine primary cs validator recover log_no_valid r)))
        k

  then-Keeps :
      (e : Engine D) (s : Step (Engine D) (Attempt D)) (f : Attempt D → Step (Engine D) (Attempt D))
      → Keeps e (engine_of s)
      → ((a : Attempt D) → Keeps e a.engine → Keeps e (engine_of (f a)))
      → Keeps e (engine_of (s >>= f))
  then-Keeps e (stop e') f k h = k
  then-Keeps e (go a) f k h = h a k

  stages-Keeps :
      (e : Engine D) (primary : PacketRecord) (cs : Candidates) (a : Attempt D)
      → Keeps e a.engine
      → Keeps e (engine_of (stages primary cs a))
  unfolding stages
  stages-Keeps e primary cs a k =
      let null_stage = stage primary cs validate_null recover_null false false in
      let mixed_stage = stage primary cs validate_mixed recover_mixed false false in
      let content_stage = stage primary cs validate_content recover_content true true in
      then-Keeps e (null_stage a) (λ a1. mixed_stage a1 >>= content_stage)
        (stage-Keeps e primary cs validate_null recover_null false false a recover_null-Keeps k)
        (λ a1 k1.
          then-Keeps e (mixed_stage a1) content_stage
            (stage-Keeps e primary cs validate_mixed recover_mixed false false a1
              recover_mixed-Keeps k1)
            (λ a2 k2.
              stage-Keeps e primary cs validate_content recover_content true true a2
                recover_content-Keeps k2))

  pub either-Keeps :
      (e : Engine D) (b : Bool) (s t : Engine D)
      → Keeps e s
      → Keeps e t
      → Keeps e (if b then s else t)
  either-Keeps e true s t h k = h
  either-Keeps e false s t h k = k

  pub refuse_misfit-Keeps :
      (e : Engine D) (primary : PacketRecord) (cs : Candidates)
      → Keeps e (refuse_misfit e primary cs)
  unfolding refuse_misfit
  refuse_misfit-Keeps e primary cs =
      let refusal = reject-Keeps e primary (missing_for (previous_output_cc e primary) primary) in
      either-Keeps e (ltb e.alignment.confidence e.config.min_alignment_confidence) _ _
        (refusal RejectReason.low_alignment Reason.low_alignment)
        (either-Keeps e (e.last_primary_anchor.valid && length cs.records == 0) _ _
          (refusal RejectReason.ambiguous Reason.no_after_anchor)
          (either-Keeps e cs.truncated _ _
            (refusal RejectReason.ambiguous Reason.too_many_after_anchors)
            (refusal RejectReason.missing_candidate Reason.missing_anchor_or_candidate)))

  pub update_anchor-Holds :
      (e : Engine D) (primary : PacketRecord) (m : Option PacketRecord)
      → Holds e (update_anchor e primary m)
  unfolding update_anchor
  update_anchor-Holds e primary none = Holds-refl e
  update_anchor-Holds e primary (some m) = ground arith

  -- A round that processes a packet takes it off the queue, or ends with the sink's error.
  abbrev pub Processed : Engine D → Round D → Type 0
  Processed e (again e') = Holds (pop_primary e) e'
  Processed e (leave e') = ⊥
  Processed e (done s e') = Holds e e' × (s ≡ error)

  after_output-Processed :
      (e : Engine D) (primary : PacketRecord) (m : Option PacketRecord) (p : Status × Engine D)
      → Keeps e p.1
      → Processed e (after_output primary m p)
  after_output-Processed e primary m (error, e') k = (Keeps-Holds e e' k, refl)
  after_output-Processed e primary m (ok, e') k = Holds-pop e _ (
      Holds-trans e e' _ (Keeps-Holds e e' k) (
        Holds-trans e' (update_anchor e' primary m) _ (update_anchor-Holds e' primary m)
          (ground arith)))

  finish_round-Processed :
      (e : Engine D) (primary : PacketRecord) (cs : Candidates) (m : Option PacketRecord)
      (s : Step (Engine D) (Attempt D))
      → Keeps e (engine_of s)
      → Processed e (finish_round primary cs m s)
  unfolding finish_round
  finish_round-Processed e primary cs m (stop e') k = (Keeps-Holds e e' k, refl)
  finish_round-Processed e primary cs m (go a) k =
      let kept =
        either-Keeps a.engine (not a.primary_fits && not a.logged_recovery_decision) _ _
          (refuse_misfit-Keeps a.engine primary cs) (Keeps-refl a.engine) in
      after_output-Processed e primary m _
        (Keeps-trans e _ _ (Keeps-trans e a.engine _ k kept) (output_record-Keeps _ primary))

  after_tei-Processed :
      (e : Engine D) (primary : PacketRecord) (cs : Candidates) (m : Option PacketRecord) (b : Bool)
      (p : Decision × Engine D)
      → Keeps e p.1
      → Processed e (after_tei primary cs m b p)
  after_tei-Processed e primary cs m b (failed, e') k = (Keeps-Holds e e' k, refl)
  after_tei-Processed e primary cs m b (inserted, e') k = Holds-pop e e' (Keeps-Holds e e' k)
  after_tei-Processed e primary cs m b (undecided, e') k =
      finish_round-Processed e primary cs m _ (stages-Keeps e primary cs _ k)
  after_tei-Processed e primary cs m b (rejected, e') k =
      finish_round-Processed e primary cs m _ (stages-Keeps e primary cs _ k)

  pub process-Processed : (e : Engine D) (primary : PacketRecord) → Processed e (process e primary)
  unfolding process
  process-Processed e0 primary =
      let cs = boundary_matches e0 primary in
      after_tei-Processed e0 primary cs _ _ _
        (Keeps-trans e0 _ _ (ground arith) (recover_tei-Keeps _ primary))

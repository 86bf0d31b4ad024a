-- ===== src/Engine/Recovery/Kept.antt =====
-- src/recovery_engine.c: what no recovery changes, whatever it decides: the histories, the queues,
-- the alignment and the anchor.
use two_stream_recovery.Base.{
  ◌==◌, ◌||◌, ◌&&◌, zero, length, ◌+◌, ltb, inl, add64, inr, [], ◌∷◌, suc, none, Option-cases, true,
  false, if◌then◌else◌, List, arith, Bool, not, Option, some, ℕ,
}
use Prim.Native.Nat.{zero}
use mathlib.Core.Option.{none}
use two_stream_recovery.Base.Step.{Step, go, stop}
use two_stream_recovery.Stats.{RejectReason}
use two_stream_recovery.Engine.State.{Engine, PacketRecord, Status, ok, error}
use two_stream_recovery.Engine.History.{find_record}
use two_stream_recovery.Engine.Output.{
  Reason, Decision, output_record, observe_recovered, reject, observe_unrecoverable,
}
use two_stream_recovery.Engine.Output.Clean.{
  Keeps, Keeps-refl, Keeps-trans, output_record-Keeps, observe_recovered-Keeps, Status-cases,
}
use two_stream_recovery.Engine.Boundary.{Candidates}
use two_stream_recovery.Engine.Recovery.{
  Refusal, Gap, insert_all, insert_range, count_burst, insertion, refused, Validation,
  missing_packets,
}
use two_stream_recovery.Engine.Recovery.Content.{
  recover_content, content_gap, content_missing, content_plan, insert_content,
}
use two_stream_recovery.Engine.Recovery.Mixed.{
  Verdict, recover_mixed, position_gap, mixed_plan, insert_mixed, first_candidate,
}
use two_stream_recovery.Engine.Recovery.NullRegion.{
  recover_null, null_plan, insert_null, null_insertion,
}
use two_stream_recovery.Engine.Recovery.Tei.{recover_tei, tei_plan, replace}
use two_stream_recovery.Engine.Recovery.Unique.{
  Choice, Validator, Recovery, choose, settle, recover_unique, first_choice, is_definitive,
}

module _ {D : Type 0} where
  pub reject-Keeps :
      (e : Engine D) (primary : PacketRecord) (missing : Option ℕ) (r : RejectReason) (s : Reason)
      → Keeps e (reject e primary missing r s)
  unfolding reject observe_unrecoverable
  reject-Keeps e primary none r s = ground arith
  reject-Keeps e primary (some m) r s = ground arith

  count_burst-Keeps : (e : Engine D) (n : ℕ) → Keeps e (count_burst e n)
  unfolding count_burst
  count_burst-Keeps e n = ground arith

  -- One record of a recovery: the rest of the loop follows where the sink took it.
  step-Keeps :
      (e : Engine D) (c : PacketRecord) (b : Bool) (rest : Engine D → Status × Engine D)
      → ((e' : Engine D) → Keeps e' (rest e').1)
      → Keeps e (
          (elim (output_record e c).0 as (λ x. Status × Engine D) [
            | error ↦ (error, (output_record e c).1)
            | ok ↦ rest (observe_recovered (output_record e c).1 b)
          ]).1)
  step-Keeps e c b rest h =
      let kept = output_record-Keeps e c in
      elim (Status-cases (output_record e c)) [
        | inl sent ↦ rw sent (
            Keeps-trans e _ _
              (Keeps-trans e _ _ kept (observe_recovered-Keeps (output_record e c).1 b).0)
              (h (observe_recovered (output_record e c).1 b)))
        | inr refused ↦ rw refused kept
      ]

  insert_all-Keeps :
      (counts_as : PacketRecord → Bool) (e : Engine D) (cs : List PacketRecord)
      → Keeps e (insert_all counts_as e cs).1
  unfolding insert_all
  insert_all-Keeps counts_as e [] = Keeps-refl e
  insert_all-Keeps counts_as e (c ∷ cs) =
      step-Keeps e c (counts_as c) (λ e'. insert_all counts_as e' cs)
        (λ e'. insert_all-Keeps counts_as e' cs)

  insert_range-Keeps :
      (counts_as : PacketRecord → Bool) (rounds : ℕ) (e : Engine D) (first i : ℕ)
      → Keeps e (insert_range counts_as rounds e first i).1
  unfolding insert_range
  insert_range-Keeps counts_as zero e first i = Keeps-refl e
  insert_range-Keeps counts_as (suc n) e first i =
      elim (Option-cases (find_record (e.history 1) (add64 first i))) [
        | inl gone ↦ rw (gone, insert_range) (Keeps-refl e)
        | inr (c, there) ↦
            rw (there, insert_range)
              (step-Keeps e c (counts_as c) (λ e'. insert_range counts_as n e' first (i + 1))
                (λ e'. insert_range-Keeps counts_as n e' first (i + 1)))
      ]

  insertion-Keeps :
      (e : Engine D) (p : Status × Engine D) (n : ℕ) → Keeps e p.1 → Keeps e (insertion p n).1
  insertion-Keeps e (ok, e') n h = Keeps-trans e e' _ h (count_burst-Keeps e' n)
  insertion-Keeps e (error, e') n h = h

  null_insertion-Keeps :
      (e : Engine D) (p : Status × Engine D) → Keeps e p.1 → Keeps e (null_insertion p).1
  null_insertion-Keeps e (ok, e') h = h
  null_insertion-Keeps e (error, e') h = h

  -- A recovery that keeps these in every case.
  abbrev pub IsKeeping : Recovery D → Type 0
  IsKeeping recover =
      (e : Engine D) (primary : PacketRecord) (after : Option PacketRecord)
      → Keeps e (recover e primary after).1

  insert_content-Keeps :
      (e : Engine D) (primary : PacketRecord) (m : ℕ) (plan : Step Refusal (List PacketRecord))
      → Keeps e (insert_content e primary m plan).1
  insert_content-Keeps e primary m (stop r) =
      reject-Keeps e primary (some m) r.reject_reason r.reason
  insert_content-Keeps e primary m (go cs) =
      insertion-Keeps e (insert_all (λ _. false) e cs) m (insert_all-Keeps (λ _. false) e cs)

  insert_mixed-Keeps :
      (e : Engine D) (primary : PacketRecord) (g : Gap) (plan : Step Verdict (Unit {0}))
      → Keeps e (insert_mixed e primary g plan).1
  insert_mixed-Keeps e primary g (stop none) = Keeps-refl e
  insert_mixed-Keeps e primary g (stop (some r)) =
      reject-Keeps e primary (some (missing_packets g)) r.reject_reason r.reason
  insert_mixed-Keeps e primary g (go u) =
      insertion-Keeps e _ (missing_packets g)
        (insert_range-Keeps (λ c. c.is_null) (missing_packets g) e (first_candidate e g) 0)

  insert_null-Keeps :
      (e : Engine D) (primary : PacketRecord) (g : Gap) (plan : Step Verdict (Unit {0}))
      → Keeps e (insert_null e primary g plan).1
  insert_null-Keeps e primary g (stop none) = Keeps-refl e
  insert_null-Keeps e primary g (stop (some r)) =
      reject-Keeps e primary (some (missing_packets g)) r.reject_reason r.reason
  insert_null-Keeps e primary g (go u) =
      null_insertion-Keeps e _
        (insert_range-Keeps (λ _. true) (missing_packets g) e (first_candidate e g) 0)

  either-Keeps :
      (e : Engine D) (b : Bool) (p q : Decision × Engine D)
      → Keeps e p.1
      → Keeps e q.1
      → Keeps e (if◌then◌else◌ {A = Decision × Engine D} b p q).1
  either-Keeps e true p q h k = h
  either-Keeps e false p q h k = k

  pub recover_content-Keeps :
      (e : Engine D) (primary : PacketRecord) (after : Option PacketRecord)
      → Keeps e (recover_content e primary after).1
  unfolding recover_content
  recover_content-Keeps e primary after = elim (Option-cases (content_gap e primary after)) [
    | inl absent ↦ rw (absent, recover_content) (Keeps-refl e)
    | inr (g, gap) ↦ elim (Option-cases (content_missing e primary g)) [
      | inl absent ↦ rw (gap, absent, recover_content) (Keeps-refl e)
      | inr (m, missing) ↦
          rw (gap, missing, recover_content)
            (either-Keeps e (m.count == 0) _ _ (Keeps-refl e)
              (insert_content-Keeps e primary m.count (content_plan e primary g m)))
    ]
  ]

  pub recover_mixed-Keeps :
      (e : Engine D) (primary : PacketRecord) (after : Option PacketRecord)
      → Keeps e (recover_mixed e primary after).1
  unfolding recover_mixed
  recover_mixed-Keeps e primary after = elim (Option-cases (position_gap e primary after)) [
    | inl absent ↦ rw (absent, recover_mixed) (Keeps-refl e)
    | inr (g, gap) ↦
        rw (gap, recover_mixed)
          (either-Keeps e (missing_packets g == 0) _ _ (Keeps-refl e)
            (insert_mixed-Keeps e primary g (mixed_plan e primary g)))
  ]

  pub recover_null-Keeps :
      (e : Engine D) (primary : PacketRecord) (after : Option PacketRecord)
      → Keeps e (recover_null e primary after).1
  unfolding recover_null
  recover_null-Keeps e primary after = elim (Option-cases (position_gap e primary after)) [
    | inl absent ↦ rw (absent, recover_null) (Keeps-refl e)
    | inr (g, gap) ↦
        rw (gap, recover_null)
          (either-Keeps e (not (g.primary_between == 0) || missing_packets g == 0) _ _
            (Keeps-refl e) (insert_null-Keeps e primary g (null_plan e primary g)))
  ]

  replace-Keeps :
      (e : Engine D) (primary : PacketRecord) (plan : Step Refusal PacketRecord)
      → Keeps e (replace e primary plan).1
  replace-Keeps e primary (stop r) = reject-Keeps e primary (some 0) r.reject_reason r.reason
  replace-Keeps e primary (go c) =
      insertion-Keeps e (insert_all (λ _. false) e (c ∷ [])) 1
        (insert_all-Keeps (λ _. false) e (c ∷ []))

  pub recover_tei-Keeps :
      (e : Engine D) (primary : PacketRecord) → Keeps e (recover_tei e primary).1
  unfolding recover_tei
  recover_tei-Keeps e primary =
      either-Keeps e (not primary.transport_error) _ _ (Keeps-refl e)
        (replace-Keeps e primary (tei_plan e primary))

  settle-Keeps :
      (e : Engine D) (primary : PacketRecord) (cs : Candidates) (recover : Recovery D)
      (log_no_valid : Bool) (r : Step Validation Choice)
      → IsKeeping recover
      → Keeps e (settle e primary cs recover log_no_valid r).1
  unfolding settle
  settle-Keeps e primary cs recover log_no_valid (stop v) k = reject-Keeps e primary _ _ _
  settle-Keeps e primary cs recover log_no_valid (go c) k = elim (Option-cases c.winner) [
    | inr (w, won) ↦ rw (won, settle) (k e primary (some w))
    | inl nobody ↦
        rw (nobody, settle)
          (either-Keeps e
            (ltb 0 (length cs.records)
              && (log_no_valid || is_definitive c.best_reject.reject_reason))
            _ _ (reject-Keeps e primary _ _ _) (Keeps-refl e))
  ]

  pub recover_unique-Keeps :
      (e : Engine D) (primary : PacketRecord) (cs : Candidates) (validator : Validator D)
      (recover : Recovery D) (log_no_valid : Bool)
      → IsKeeping recover
      → Keeps e (recover_unique e primary cs validator recover log_no_valid).1
  unfolding recover_unique
  recover_unique-Keeps e primary cs validator recover log_no_valid k =
      either-Keeps e cs.truncated _ _ (reject-Keeps e primary _ _ _) (
        settle-Keeps e primary cs recover log_no_valid
          (choose e primary validator cs.records first_choice) k)

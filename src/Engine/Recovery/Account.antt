-- ===== src/Engine/Recovery/Account.antt =====
-- src/recovery_engine.c: what each decision of a recovery says of the engine that it leaves.
use two_stream_recovery.Base.{
  none, [], ◌||◌, ◌∷◌, ◌==◌, inr, inl, true, List, if◌then◌else◌, Option-cases, not, Bool, Option,
  ◌⊎◌, ◌≢◌, false, some, refl, arith, sym, add64, update_self, update-ne, ℕ, ◌≡◌,
}
use two_stream_recovery.Engine.Recovery.Rejects.{insert_range-SameRejects, insert_all-SameRejects}
use two_stream_recovery.Engine.Recovery.There.{mixed_plan-AllThere, null_plan-AllThere}
use two_stream_recovery.Engine.Recovery.Stuck.{insert_range-IsStuck, insert_all-IsStuck, IsStuck}
use two_stream_recovery.Engine.Recovery.Content.{
  content_plan, content_missing, insert_content, content_gap, recover_content,
}
use two_stream_recovery.Engine.Recovery.Mixed.{
  first_candidate, insert_mixed, position_gap, mixed_plan, Verdict, recover_mixed,
}
use two_stream_recovery.Engine.Recovery.{
  insert_range, insert_all, missing_packets, Refusal, Gap, count_burst, insertion,
}
use two_stream_recovery.Base.Step.{go, stop, Step}
use two_stream_recovery.Engine.Recovery.Tei.{tei_plan, replace, recover_tei}
use two_stream_recovery.Engine.Recovery.NullRegion.{
  insert_null, null_plan, recover_null, null_insertion,
}
use two_stream_recovery.Stats.{RejectReason, reject_index}
use two_stream_recovery.Stats.Observe.{reject_recovery}
use two_stream_recovery.Engine.State.{Engine, PacketRecord, Status, ok, error}
use two_stream_recovery.Engine.Output.{
  Reason, Decision, undecided, inserted, rejected, failed, reject, observe_unrecoverable,
}

module _ {D : Type 0} where
  -- What a refusal leaves alone, and the one counter that it raises. A loss is counted only for a
  -- primary packet without error flags.
  pub record Refuses (e e' : Engine D) (primary : PacketRecord) : Type 0 where
    pub reason : RejectReason
    pub sent : e'.env ≡ e.env
    pub states : e'.output_pid_state ≡ e.output_pid_state
    pub raised :
        e'.stats.recovery_rejects (reject_index reason)
        ≡ add64 (e.stats.recovery_rejects (reject_index reason)) 1
    pub others :
        (i : ℕ) → i ≢ reject_index reason → e'.stats.recovery_rejects i ≡ e.stats.recovery_rejects i
    pub recovered : e'.stats.recovered_packets ≡ e.stats.recovered_packets
    pub output : e'.stats.output_packets ≡ e.stats.output_packets
    pub loss :
        (e'.stats.unrecoverable_loss ≡ e.stats.unrecoverable_loss)
        ⊎ ((primary.transport_error ≡ false) × (primary.discontinuity_indicator ≡ false))

  -- By its decision: a gap that is left undecided leaves the engine as it is, one that is rejected is
  -- counted and sends nothing, and a failure is one of the sink.
  abbrev pub IsAccounted : Engine D → PacketRecord → Decision × Engine D → Type 0
  IsAccounted e primary (undecided, e') = e' ≡ e
  IsAccounted e primary (rejected, e') = Refuses e e' primary
  IsAccounted e primary (failed, e') = IsStuck e'
  IsAccounted e primary (inserted, e') = e'.stats.recovery_rejects ≡ e.stats.recovery_rejects

  reject-Refuses :
      (e : Engine D) (primary : PacketRecord) (missing : ℕ) (reject_reason : RejectReason)
      (reason : Reason)
      → Refuses e (reject e primary (some missing) reject_reason reason) primary
  unfolding reject observe_unrecoverable reject_recovery
  reject-Refuses e primary missing reject_reason reason = record {
    reason = reject_reason;
    sent = ground arith;
    states = ground arith;
    raised = ground (
      arith,
      update_self e.stats.recovery_rejects (reject_index reject_reason)
          (add64 (e.stats.recovery_rejects (reject_index reject_reason)) 1),
    );
    others = λ i h. ground (
      arith,
      update-ne e.stats.recovery_rejects (reject_index reject_reason) i
          (add64 (e.stats.recovery_rejects (reject_index reject_reason)) 1) (λ p. h (sym p)),
    );
    recovered = ground arith;
    output = ground arith;
    loss = ground arith;
  }

  insertion-IsAccounted :
      (e : Engine D) (primary : PacketRecord) (p : Status × Engine D) (n : ℕ)
      → (p.0 ≡ error → IsStuck p.1)
      → p.1.stats.recovery_rejects ≡ e.stats.recovery_rejects
      → IsAccounted e primary (insertion p n)
  unfolding count_burst
  insertion-IsAccounted e primary (ok, e') n h k = ground arith
  insertion-IsAccounted e primary (error, e') n h k = h refl

  null_insertion-IsAccounted :
      (e : Engine D) (primary : PacketRecord) (p : Status × Engine D)
      → (p.0 ≡ error → IsStuck p.1)
      → p.1.stats.recovery_rejects ≡ e.stats.recovery_rejects
      → IsAccounted e primary (null_insertion p)
  null_insertion-IsAccounted e primary (ok, e') h k = k
  null_insertion-IsAccounted e primary (error, e') h k = h refl

  insert_content-IsAccounted :
      (e : Engine D) (primary : PacketRecord) (m : ℕ) (plan : Step Refusal (List PacketRecord))
      → IsAccounted e primary (insert_content e primary m plan)
  insert_content-IsAccounted e primary m (stop r) =
      reject-Refuses e primary m r.reject_reason r.reason
  insert_content-IsAccounted e primary m (go cs) =
      insertion-IsAccounted e primary (insert_all (λ _. false) e cs) m
        (insert_all-IsStuck (λ _. false) e cs) (insert_all-SameRejects (λ _. false) e cs)

  insert_mixed-IsAccounted :
      (e : Engine D) (primary : PacketRecord) (g : Gap) (plan : Step Verdict (Unit {0}))
      → mixed_plan e primary g ≡ plan
      → IsAccounted e primary (insert_mixed e primary g plan)
  insert_mixed-IsAccounted e primary g (stop none) h = refl
  insert_mixed-IsAccounted e primary g (stop (some r)) h =
      reject-Refuses e primary (missing_packets g) r.reject_reason r.reason
  insert_mixed-IsAccounted e primary g (go u) h =
      let n = missing_packets g in
      insertion-IsAccounted e primary (insert_range (λ c. c.is_null) n e (first_candidate e g) 0) n
        (insert_range-IsStuck (λ c. c.is_null) n e (e.history 1) (first_candidate e g) 0 refl
          (mixed_plan-AllThere e primary g u h))
        (insert_range-SameRejects (λ c. c.is_null) n e (first_candidate e g) 0)

  insert_null-IsAccounted :
      (e : Engine D) (primary : PacketRecord) (g : Gap) (plan : Step Verdict (Unit {0}))
      → null_plan e primary g ≡ plan
      → IsAccounted e primary (insert_null e primary g plan)
  insert_null-IsAccounted e primary g (stop none) h = refl
  insert_null-IsAccounted e primary g (stop (some r)) h =
      reject-Refuses e primary (missing_packets g) r.reject_reason r.reason
  insert_null-IsAccounted e primary g (go u) h =
      let n = missing_packets g in
      null_insertion-IsAccounted e primary (insert_range (λ _. true) n e (first_candidate e g) 0)
        (insert_range-IsStuck (λ _. true) n e (e.history 1) (first_candidate e g) 0 refl
          (null_plan-AllThere e primary g u h))
        (insert_range-SameRejects (λ _. true) n e (first_candidate e g) 0)

  replace-IsAccounted :
      (e : Engine D) (primary : PacketRecord) (plan : Step Refusal PacketRecord)
      → IsAccounted e primary (replace e primary plan)
  replace-IsAccounted e primary (stop r) = reject-Refuses e primary 0 r.reject_reason r.reason
  replace-IsAccounted e primary (go c) =
      insertion-IsAccounted e primary (insert_all (λ _. false) e (c ∷ [])) 1
        (insert_all-IsStuck (λ _. false) e (c ∷ []))
        (insert_all-SameRejects (λ _. false) e (c ∷ []))

  if-IsAccounted :
      (e : Engine D) (primary : PacketRecord) (b : Bool) (p : Decision × Engine D)
      → IsAccounted e primary p
      → IsAccounted e primary (if◌then◌else◌ {A = Decision × Engine D} b (undecided, e) p)
  if-IsAccounted e primary true p h = refl
  if-IsAccounted e primary false p h = h

  recover_content-IsAccounted :
      (e : Engine D) (primary : PacketRecord) (after : Option PacketRecord)
      → IsAccounted e primary (recover_content e primary after)
  unfolding recover_content
  recover_content-IsAccounted e primary after = elim (Option-cases (content_gap e primary after)) [
    | inl absent ↦ rw (absent, recover_content) refl
    | inr (g, gap) ↦ elim (Option-cases (content_missing e primary g)) [
      | inl absent ↦ rw (gap, absent, recover_content) refl
      | inr (m, missing) ↦
          rw (gap, missing, recover_content)
            (if-IsAccounted e primary (m.count == 0)
              (insert_content e primary m.count (content_plan e primary g m))
              (insert_content-IsAccounted e primary m.count (content_plan e primary g m)))
    ]
  ]

  recover_mixed-IsAccounted :
      (e : Engine D) (primary : PacketRecord) (after : Option PacketRecord)
      → IsAccounted e primary (recover_mixed e primary after)
  unfolding recover_mixed
  recover_mixed-IsAccounted e primary after = elim (Option-cases (position_gap e primary after)) [
    | inl absent ↦ rw (absent, recover_mixed) refl
    | inr (g, gap) ↦
        rw (gap, recover_mixed)
          (if-IsAccounted e primary (missing_packets g == 0)
            (insert_mixed e primary g (mixed_plan e primary g))
            (insert_mixed-IsAccounted e primary g (mixed_plan e primary g) refl))
  ]

  recover_null-IsAccounted :
      (e : Engine D) (primary : PacketRecord) (after : Option PacketRecord)
      → IsAccounted e primary (recover_null e primary after)
  unfolding recover_null
  recover_null-IsAccounted e primary after = elim (Option-cases (position_gap e primary after)) [
    | inl absent ↦ rw (absent, recover_null) refl
    | inr (g, gap) ↦
        rw (gap, recover_null)
          (if-IsAccounted e primary (not (g.primary_between == 0) || missing_packets g == 0)
            (insert_null e primary g (null_plan e primary g))
            (insert_null-IsAccounted e primary g (null_plan e primary g) refl))
  ]

  recover_tei-IsAccounted :
      (e : Engine D) (primary : PacketRecord) → IsAccounted e primary (recover_tei e primary)
  unfolding recover_tei
  recover_tei-IsAccounted e primary =
      if-IsAccounted e primary (not primary.transport_error)
        (replace e primary (tei_plan e primary))
        (replace-IsAccounted e primary (tei_plan e primary))

  -- What each of the four recoveries does by its decision. Undecided, it leaves the engine as it is.
  -- Rejected, it has sent nothing, the output states and the counts of recovered and output packets
  -- are as before, of the reject counters exactly one has gone up, by one, and a loss is counted only
  -- for a primary packet without error flags. It fails only where the sink has refused the last
  -- packet that it was offered. Where it inserts, the reject counters are as before.
  pub recoveries-IsAccounted :
      (e : Engine D) (primary : PacketRecord) (after : Option PacketRecord)
      → IsAccounted e primary (recover_content e primary after)
        × IsAccounted e primary (recover_mixed e primary after)
        × IsAccounted e primary (recover_null e primary after)
        × IsAccounted e primary (recover_tei e primary)
  recoveries-IsAccounted e primary after = (
    recover_content-IsAccounted e primary after,
    recover_mixed-IsAccounted e primary after,
    recover_null-IsAccounted e primary after,
    recover_tei-IsAccounted e primary,
  )

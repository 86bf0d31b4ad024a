-- ===== src/Engine/Recovery/Content/Inserted.antt =====
-- `try_recover_exact_content_gap` of src/recovery_engine.c, where it inserts packets.
use two_stream_recovery.Base.{
  ◌∙◌, inr, ltb, inl, ap, false, Bool-cases, refl, true, ◌≡◌, List, Option, ℕ,
}
use two_stream_recovery.Base.Step.{go, stop, Step}
use two_stream_recovery.Engine.State.{Engine, PacketRecord, Status, ok, error}
use two_stream_recovery.Engine.Match.{fits}
use two_stream_recovery.Engine.Output.{inserted}
use two_stream_recovery.Engine.Recovery.{Refusal, count_burst, insertion, insert_all}
use two_stream_recovery.Engine.Recovery.Insert.{EmitsAll, insert_all-EmitsAll}
use two_stream_recovery.Engine.Recovery.Content.{
  Missing, content_plan, insert_content, recover_content,
}
use two_stream_recovery.Engine.Recovery.Content.Agree.{recover_content-cases}
use two_stream_recovery.Engine.Recovery.Content.Plan.{IsPlan, content_plan-IsPlan}

module _ {D : Type 0} where
  pub insertion-inserted :
      (p : Status × Engine D) (n : ℕ)
      → (insertion p n).0 ≡ inserted
      → (p.0 ≡ ok) × ((insertion p n).1 ≡ count_burst p.1 n)
  insertion-inserted (ok, e) n h = (refl, refl)
  insertion-inserted (error, e) n h = cc

  -- The count of the bursts is no output.
  pub count_burst-EmitsAll :
      (e e' : Engine D) (cs : List PacketRecord) (n : ℕ)
      → EmitsAll e e' cs
      → EmitsAll e (count_burst e' n) cs
        × ((count_burst e' n).output_pid_state ≡ e'.output_pid_state)
  unfolding count_burst
  count_burst-EmitsAll e e' cs n h = elim (Bool-cases (ltb 1 n)) [
    | inl b ↦ rw b (
      record {
        sent = h.sent;
        errors = h.errors;
        duplicates = h.duplicates;
        kept = record {
          accepts = h.kept.accepts;
          history = h.kept.history;
          config = h.kept.config;
          next = h.kept.next;
          active = h.kept.active;
          alignment = h.kept.alignment;
          anchor = h.kept.anchor;
          primary_queue = h.kept.primary_queue;
          secondary_queue = h.kept.secondary_queue;
        };
      },
      refl,
    )
    | inr b ↦ rw b (h, refl)
  ]

  -- Records went out by a plan that holds, and the primary packet now fits.
  pub record IsFilled (e e' : Engine D) (primary : PacketRecord) : Type 0 where
    pub missing : Missing
    pub records : List PacketRecord
    pub plan : IsPlan e primary missing records
    pub emits : EmitsAll e e' records
    pub closed : fits e'.output_pid_state primary ≡ true

  pub insertion-IsFilled :
      (e : Engine D) (primary : PacketRecord) (m : Missing) (cs : List PacketRecord)
      → IsPlan e primary m cs
      → (insertion (insert_all (λ _. false) e cs) m.count).0 ≡ inserted
      → IsFilled e (insertion (insert_all (λ _. false) e cs) m.count).1 primary
  insertion-IsFilled e primary m cs p h =
      let out = insertion-inserted (insert_all (λ _. false) e cs) m.count h in
      let all = insert_all-EmitsAll (λ _. false) e cs p.states p.rehearsed out.0 in
      let counted = count_burst-EmitsAll e (insert_all (λ _. false) e cs).1 cs m.count all.0 in
      rw out.1 (record {
        missing = m;
        records = cs;
        plan = p;
        emits = counted.0;
        closed = ap (λ s. fits s primary) (counted.1 ∙ all.1) ∙ p.closes;
      })

  insert_content-IsFilled :
      (e : Engine D) (primary : PacketRecord) (m : Missing)
      (plan : Step Refusal (List PacketRecord))
      → ((cs : List PacketRecord) → plan ≡ go cs → IsPlan e primary m cs)
      → (insert_content e primary m.count plan).0 ≡ inserted
      → IsFilled e (insert_content e primary m.count plan).1 primary
  insert_content-IsFilled e primary m (stop r) p h = cc
  insert_content-IsFilled e primary m (go cs) p h = insertion-IsFilled e primary m cs (p cs refl) h

  -- Where the recovery of a content gap reports that it inserted packets: for each counter that is
  -- missing, from the one behind the last output on, a packet of the secondary history with that
  -- counter and the primary's PID, with a payload and without error flags, was sent, in this order
  -- and nothing else; there are no more than the configured burst, the confidence of the alignment
  -- is at least the configured one, no error in the output was counted, and the primary packet now
  -- fits behind what was output.
  pub recover_content-IsFilled :
      (e : Engine D) (primary : PacketRecord) (after : Option PacketRecord)
      → (recover_content e primary after).0 ≡ inserted
      → IsFilled e (recover_content e primary after).1 primary
  recover_content-IsFilled e primary after h = elim (recover_content-cases e primary after) [
    | inl (left, unfit) ↦ cc (rw left at h)
    | inr (g, m, tried, judged) ↦ rw tried (
        insert_content-IsFilled e primary m (content_plan e primary g m)
          (content_plan-IsPlan e primary g m) (rw tried at h))
  ]

-- ===== src/Engine/Recovery/Tei/Replaced.antt =====
-- `try_recover_primary_tei_packet` of src/recovery_engine.c, where it replaces the packet.
use two_stream_recovery.Base.{
  ◌∙◌, sym, not, if◌then◌else◌, ap, refl, inl, inr, [], arith, ◌∷◌, Bool-cases, true, false, ◌≤◌,
  some, ◌≡◌,
}
use two_stream_recovery.Base.Step.{Step, go, stop}
use two_stream_recovery.Engine.State.{Engine, PacketRecord}
use two_stream_recovery.Engine.Match.{observe_states, fits}
use two_stream_recovery.Engine.Alignment.{aligned_secondary}
use two_stream_recovery.Engine.Output.{Decision, undecided, inserted}
use two_stream_recovery.Engine.Recovery.{Refusal, insertion, insert_all, fit_all}
use two_stream_recovery.Engine.Recovery.Insert.{EmitsAll, insert_all-EmitsAll}
use two_stream_recovery.Engine.Recovery.Content.Inserted.{insertion-inserted, count_burst-EmitsAll}
use two_stream_recovery.Engine.Recovery.Tei.{tei_plan, replace, recover_tei}

module _ {D : Type 0} where
  -- The aligned packet of the secondary stream stands in for the primary packet.
  pub record IsCopy (e : Engine D) (primary c : PacketRecord) : Type 0 where
    pub aligned : aligned_secondary e primary ≡ some c
    pub trusted : e.config.min_alignment_confidence ≤ e.alignment.confidence
    pub sound : c.transport_error ≡ false
    pub continuous : c.discontinuity_indicator ≡ false
    pub content : c.is_null ≡ false
    pub payload : c.has_payload ≡ true
    pub of_pid : c.pid ≡ primary.pid
    pub counter : c.continuity_counter ≡ primary.continuity_counter
    pub fit : fits e.output_pid_state c ≡ true

  tei_plan-IsCopy :
      (e : Engine D) (primary c : PacketRecord) → tei_plan e primary ≡ go c → IsCopy e primary c
  unfolding tei_plan
  tei_plan-IsCopy e primary c h = record {
    aligned = ground arith;
    trusted = ground arith;
    sound = ground arith;
    continuous = ground arith;
    content = ground arith;
    payload = ground arith;
    of_pid = ground arith;
    counter = ground arith;
    fit = ground arith;
  }

  -- The packet in error was replaced by a copy.
  pub record IsReplaced (e e' : Engine D) (primary : PacketRecord) : Type 0 where
    pub replacement : PacketRecord
    pub copy : IsCopy e primary replacement
    pub emits : EmitsAll e e' (replacement ∷ [])

  insertion-IsReplaced :
      (e : Engine D) (primary c : PacketRecord)
      → IsCopy e primary c
      → (insertion (insert_all (λ _. false) e (c ∷ [])) 1).0 ≡ inserted
      → IsReplaced e (insertion (insert_all (λ _. false) e (c ∷ [])) 1).1 primary
  unfolding fit_all
  insertion-IsReplaced e primary c k h =
      let out = insertion-inserted (insert_all (λ _. false) e (c ∷ [])) 1 h in
      let alone : fit_all e.output_pid_state (c ∷ []) ≡ some (observe_states e.output_pid_state c) =
        rw (k.fit, fit_all) refl in
      let all = insert_all-EmitsAll (λ _. false) e (c ∷ []) _ alone out.0 in
      let counted =
        count_burst-EmitsAll e (insert_all (λ _. false) e (c ∷ [])).1 (c ∷ []) 1 all.0 in
      rw out.1 (record { replacement = c; copy = k; emits = counted.0 })

  replace-IsReplaced :
      (e : Engine D) (primary : PacketRecord) (plan : Step Refusal PacketRecord)
      → ((c : PacketRecord) → plan ≡ go c → IsCopy e primary c)
      → (replace e primary plan).0 ≡ inserted
      → IsReplaced e (replace e primary plan).1 primary
  replace-IsReplaced e primary (stop r) k h = cc
  replace-IsReplaced e primary (go c) k h = insertion-IsReplaced e primary c (k c refl) h

  -- Where the recovery of a packet with the transport error indicator reports an insertion, the
  -- packet has the indicator, and exactly one packet was sent in its place: the record of the
  -- secondary history that the alignment puts beside it, which has its PID and its counter, a
  -- payload and no error flag. The alignment had the configured confidence, and no error in the
  -- output was counted.
  pub recover_tei-IsReplaced :
      (e : Engine D) (primary : PacketRecord)
      → (recover_tei e primary).0 ≡ inserted
      → (primary.transport_error ≡ true) × IsReplaced e (recover_tei e primary).1 primary
  unfolding recover_tei
  recover_tei-IsReplaced e primary h = elim (Bool-cases primary.transport_error) [
    | inr clean ↦ cc (rw (clean, recover_tei) at h)
    | inl bad ↦
        let same : recover_tei e primary ≡ replace e primary (tei_plan e primary) =
          ap
            (λ b.
              if◌then◌else◌ {A = Decision × Engine D} (not b) (undecided, e)
                (replace e primary (tei_plan e primary)))
            bad in
        (
          bad,
          rw same (
              replace-IsReplaced e primary (tei_plan e primary) (tei_plan-IsCopy e primary)
                (sym (ap (λ p. p.0) same) ∙ h)),
        )
  ]

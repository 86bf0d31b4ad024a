-- ===== src/Engine/Recovery/Taken.antt =====
-- src/recovery_engine.c: no recovery fails while the sink takes every packet.
use two_stream_recovery.Engine.Recovery.There.{
  TakesAll-after, null_plan-AllThere, mixed_plan-AllThere, output_record-ok, insert_range-ok,
  TakesAll,
}
use two_stream_recovery.Engine.Output.{
  rejected, undecided, Decision, failed, output_record, observe_recovered,
}
use two_stream_recovery.Base.{
  ◌||◌, ◌==◌, if◌then◌else◌, not, Option-cases, inl, false, inr, none, Option, some, refl, [], ◌∷◌,
  ◌≢◌, true, List, ℕ, ◌≡◌, Bool,
}
use two_stream_recovery.Engine.Recovery.Unique.{
  first_choice, choose, Choice, Validator, recover_unique, Recovery, settle,
}
use two_stream_recovery.Engine.Recovery.Content.{
  content_plan, content_missing, content_gap, insert_content, recover_content,
}
use two_stream_recovery.Engine.Recovery.Tei.{tei_plan, replace, recover_tei}
use two_stream_recovery.Engine.Recovery.NullRegion.{
  insert_null, recover_null, null_insertion, null_plan,
}
use two_stream_recovery.Engine.Recovery.Mixed.{
  insert_mixed, position_gap, Verdict, recover_mixed, first_candidate, mixed_plan,
}
use two_stream_recovery.Engine.Recovery.{
  Validation, Refusal, missing_packets, Gap, insert_range, insert_all, insertion,
}
use two_stream_recovery.Engine.Boundary.{Candidates}
use two_stream_recovery.Base.Step.{Step, go, stop}
use two_stream_recovery.Engine.State.{Engine, PacketRecord, Status, ok, error}
use two_stream_recovery.Engine.Output.Clean.{
  Keeps-trans, output_record-Keeps, observe_recovered-Keeps,
}

module _ {D : Type 0} where
  step-ok :
      (e : Engine D) (c : PacketRecord) (b : Bool) (rest : Engine D → Status × Engine D)
      → TakesAll e
      → ((e' : Engine D) → TakesAll e' → (rest e').0 ≡ ok)
      → (elim (output_record e c).0 as (λ x. Status × Engine D) [
        | error ↦ (error, (output_record e c).1)
        | ok ↦ rest (observe_recovered (output_record e c).1 b)
      ]).0
        ≡ ok
  step-ok e c b rest t h =
      let e' = (output_record e c).1 in
      let kept = Keeps-trans e e' _ (output_record-Keeps e c) (observe_recovered-Keeps e' b).0 in
      rw (output_record-ok e c t) (h (observe_recovered e' b) (TakesAll-after e _ kept t))

  insert_all-ok :
      (counts_as : PacketRecord → Bool) (e : Engine D) (cs : List PacketRecord)
      → TakesAll e
      → (insert_all counts_as e cs).0 ≡ ok
  unfolding insert_all
  insert_all-ok counts_as e [] t = refl
  insert_all-ok counts_as e (c ∷ cs) t =
      step-ok e c (counts_as c) (λ e'. insert_all counts_as e' cs) t
        (λ e' t'. insert_all-ok counts_as e' cs t')

  -- A record that is missing in the history ends the loop with -1, so it has to be there.
  insertion-never : (p : Status × Engine D) (n : ℕ) → p.0 ≡ ok → (insertion p n).0 ≢ failed
  insertion-never (ok, e) n h k = cc
  insertion-never (error, e) n h k = cc

  -- A recovery that cannot fail while the sink takes every packet.
  abbrev pub Succeeds : Recovery D → Type 0
  Succeeds recover =
      (e : Engine D) (primary : PacketRecord) (after : Option PacketRecord)
      → TakesAll e
      → (recover e primary after).0 ≢ failed

  null_insertion-never : (p : Status × Engine D) → p.0 ≡ ok → (null_insertion p).0 ≢ failed
  null_insertion-never (ok, e) h k = cc
  null_insertion-never (error, e) h k = cc

  insert_content-never :
      (e : Engine D) (primary : PacketRecord) (m : ℕ) (plan : Step Refusal (List PacketRecord))
      → TakesAll e
      → (insert_content e primary m plan).0 ≢ failed
  insert_content-never e primary m (stop r) t = λ k. cc
  insert_content-never e primary m (go cs) t =
      insertion-never (insert_all (λ _. false) e cs) m (insert_all-ok (λ _. false) e cs t)

  insert_mixed-never :
      (e : Engine D) (primary : PacketRecord) (g : Gap) (plan : Step Verdict (Unit {0}))
      → TakesAll e
      → mixed_plan e primary g ≡ plan
      → (insert_mixed e primary g plan).0 ≢ failed
  insert_mixed-never e primary g (stop none) t h = λ k. cc
  insert_mixed-never e primary g (stop (some r)) t h = λ k. cc
  insert_mixed-never e primary g (go u) t h =
      insertion-never (insert_range (λ c. c.is_null) (missing_packets g) e (first_candidate e g) 0)
        (missing_packets g)
        (insert_range-ok (λ c. c.is_null) (missing_packets g) e (e.history 1) (first_candidate e g)
          0 refl (mixed_plan-AllThere e primary g u h) t)

  insert_null-never :
      (e : Engine D) (primary : PacketRecord) (g : Gap) (plan : Step Verdict (Unit {0}))
      → TakesAll e
      → null_plan e primary g ≡ plan
      → (insert_null e primary g plan).0 ≢ failed
  insert_null-never e primary g (stop none) t h = λ k. cc
  insert_null-never e primary g (stop (some r)) t h = λ k. cc
  insert_null-never e primary g (go u) t h =
      null_insertion-never (insert_range (λ _. true) (missing_packets g) e (first_candidate e g) 0)
        (insert_range-ok (λ _. true) (missing_packets g) e (e.history 1) (first_candidate e g) 0
          refl (null_plan-AllThere e primary g u h) t)

  if-never :
      (b : Bool) (p q : Decision × Engine D)
      → p.0 ≢ failed
      → q.0 ≢ failed
      → (if◌then◌else◌ {A = Decision × Engine D} b p q).0 ≢ failed
  if-never true p q h k = h
  if-never false p q h k = k

  pub recover_content-Succeeds :
      (e : Engine D) (primary : PacketRecord) (after : Option PacketRecord)
      → TakesAll e
      → (recover_content e primary after).0 ≢ failed
  unfolding recover_content
  recover_content-Succeeds e primary after t = elim (Option-cases (content_gap e primary after)) [
    | inl absent ↦ rw (absent, recover_content) (λ k. cc)
    | inr (g, gap) ↦ elim (Option-cases (content_missing e primary g)) [
      | inl absent ↦ rw (gap, absent, recover_content) (λ k. cc)
      | inr (m, missing) ↦
          rw (gap, missing, recover_content)
            (if-never (m.count == 0) (undecided, e)
              (insert_content e primary m.count (content_plan e primary g m)) (λ k. cc)
              (insert_content-never e primary m.count (content_plan e primary g m) t))
    ]
  ]

  pub recover_mixed-Succeeds :
      (e : Engine D) (primary : PacketRecord) (after : Option PacketRecord)
      → TakesAll e
      → (recover_mixed e primary after).0 ≢ failed
  unfolding recover_mixed
  recover_mixed-Succeeds e primary after t = elim (Option-cases (position_gap e primary after)) [
    | inl absent ↦ rw (absent, recover_mixed) (λ k. cc)
    | inr (g, gap) ↦
        rw (gap, recover_mixed)
          (if-never (missing_packets g == 0) (undecided, e)
            (insert_mixed e primary g (mixed_plan e primary g)) (λ k. cc)
            (insert_mixed-never e primary g (mixed_plan e primary g) t refl))
  ]

  pub recover_null-Succeeds :
      (e : Engine D) (primary : PacketRecord) (after : Option PacketRecord)
      → TakesAll e
      → (recover_null e primary after).0 ≢ failed
  unfolding recover_null
  recover_null-Succeeds e primary after t = elim (Option-cases (position_gap e primary after)) [
    | inl absent ↦ rw (absent, recover_null) (λ k. cc)
    | inr (g, gap) ↦
        rw (gap, recover_null)
          (if-never (not (g.primary_between == 0) || missing_packets g == 0) (undecided, e)
            (insert_null e primary g (null_plan e primary g)) (λ k. cc)
            (insert_null-never e primary g (null_plan e primary g) t refl))
  ]

  replace-never :
      (e : Engine D) (primary : PacketRecord) (plan : Step Refusal PacketRecord)
      → TakesAll e
      → (replace e primary plan).0 ≢ failed
  replace-never e primary (stop r) t = λ k. cc
  replace-never e primary (go c) t =
      insertion-never (insert_all (λ _. false) e (c ∷ [])) 1
        (insert_all-ok (λ _. false) e (c ∷ []) t)

  pub recover_tei-never :
      (e : Engine D) (primary : PacketRecord) → TakesAll e → (recover_tei e primary).0 ≢ failed
  unfolding recover_tei
  recover_tei-never e primary t =
      if-never (not primary.transport_error) (undecided, e) (replace e primary (tei_plan e primary))
        (λ k. cc) (replace-never e primary (tei_plan e primary) t)

  either-never :
      (b : Bool) (e e' : Engine D)
      → (if◌then◌else◌ {A = Decision × Engine D} b (rejected, e') (undecided, e)).0 ≢ failed
  either-never true e e' = λ k. cc
  either-never false e e' = λ k. cc

  settle-never :
      (e : Engine D) (primary : PacketRecord) (cs : Candidates) (recover : Recovery D)
      (log_no_valid : Bool) (r : Step Validation Choice)
      → Succeeds recover
      → TakesAll e
      → (settle e primary cs recover log_no_valid r).0 ≢ failed
  unfolding settle
  settle-never e primary cs recover log_no_valid (stop v) s t = λ k. cc
  settle-never e primary cs recover log_no_valid (go c) s t = elim (Option-cases c.winner) [
    | inr (w, won) ↦ rw (won, settle) (s e primary (some w) t)
    | inl nobody ↦ rw (nobody, settle) (either-never _ e _)
  ]

  pub recover_unique-never :
      (e : Engine D) (primary : PacketRecord) (cs : Candidates) (validator : Validator D)
      (recover : Recovery D) (log_no_valid : Bool)
      → Succeeds recover
      → TakesAll e
      → (recover_unique e primary cs validator recover log_no_valid).0 ≢ failed
  unfolding recover_unique
  recover_unique-never e primary cs validator recover log_no_valid s t =
      if-never cs.truncated _ _ (λ k. cc)
        (settle-never e primary cs recover log_no_valid
          (choose e primary validator cs.records first_choice) s t)

-- ===== src/Engine/Recovery/Content/Agree.antt =====
-- src/recovery_engine.c: `validate_exact_content_candidate` and `try_recover_exact_content_gap`, which
-- write the same checks out twice, come to the same result.
use two_stream_recovery.Engine.Recovery.{
  fit_all, Gap, Refusal, insertion, insert_all, check_ends, refuse,
}
use two_stream_recovery.Base.{
  refl, ◌==◌, Bool-cases, true, false, not, ◌⊎◌, inr, some, none, inl, ◌≡◌, ap, zero, suc, ◌+◌, ◌-◌,
  ◌%◌, add64, Option-cases, Option, Bool, List, ℕ, ◌||◌, ltb,
}
use two_stream_recovery.Base.Step.{go, stop, Step, ◌>>=◌, ◌>>◌, guard, present}
use two_stream_recovery.Stats.{RejectReason}
use two_stream_recovery.Engine.State.{Engine, PacketRecord, Status, ok, error, OutputPidState}
use two_stream_recovery.Engine.History.{find_record}
use two_stream_recovery.Engine.Match.{are_anchor, exact_match, fits}
use two_stream_recovery.Engine.Output.{Reason, Decision, undecided, inserted, rejected, failed}
use two_stream_recovery.Engine.Recovery.Stuck.{IsStuck, insert_all-IsStuck}
use two_stream_recovery.Engine.Recovery.Content.{
  Missing, content_gap, content_missing, content_plan, insert_content, recover_content, wanted,
  scan_counter, first_index, pick, pick_all, check_order,
}
use two_stream_recovery.Engine.Recovery.Content.Checks.{
  validate_content, judge, is_possible, sole_possible, check_candidate, check_candidates,
  content_checks,
}

-- Three checks in front of a rest, and the same three as a row of their own.
row_first :
    {E B : Type 0} (a b c : Bool) (x y z : E) (k l : Step E B)
    → k ≡ l
    → (guard a x >> (guard b y >> (guard c z >> k)))
      ≡ ((guard a x >> (guard b y >> guard c z)) >> l)
row_first true true true x y z k l h = h
row_first true true false x y z k l h = refl
row_first true false c x y z k l h = refl
row_first false b c x y z k l h = refl

order_first :
    {E A B : Type 0} (o : Option A) (x : E) (f : A → Step E (Unit {0})) (r : Step E B)
    → (present o x >>= λ a. f a >> r) ≡ ((present o x >>= f) >> r)
order_first none x f r = refl
order_first (some a) x f r = refl

then_same :
    {E A B : Type 0} (m : Step E A) (f g : A → Step E B)
    → ((a : A) → f a ≡ g a)
    → (m >>= f) ≡ (m >>= g)
then_same (go a) f g h = h a
then_same (stop x) f g h = refl

module _ {D : Type 0} where
  -- The decision that the validation announces. A failure is one of the sink.
  abbrev pub IsAnnounced : Bool → Decision × Engine D → Type 0
  IsAnnounced true (d, e) = (d ≡ inserted) ⊎ ((d ≡ failed) × IsStuck e)
  IsAnnounced false (d, e) = (d ≡ undecided) ⊎ (d ≡ rejected)

  sole_possible-scan_counter :
      (rounds : ℕ) (e : Engine D) (pid k index : ℕ) (found : Option PacketRecord)
      → sole_possible rounds e pid k index found ≡ scan_counter rounds e pid k index found
  unfolding sole_possible scan_counter wanted is_possible
  sole_possible-scan_counter zero e pid k index found = refl
  sole_possible-scan_counter (suc n) e pid k index found =
      elim (Option-cases (find_record (e.history 1) index)) [
        | inl gone ↦
            rw (gone, sole_possible, scan_counter, wanted)
              (sole_possible-scan_counter n e pid k (index + 1) found)
        | inr (p, there) ↦ elim (Bool-cases (is_possible p pid k)) [
          | inr other ↦
              rw (there, other, sole_possible, scan_counter, wanted)
                (sole_possible-scan_counter n e pid k (index + 1) found)
          | inl hit ↦ elim (Option-cases found) [
            | inl first ↦
                rw (there, hit, first, sole_possible, scan_counter, wanted)
                  (sole_possible-scan_counter n e pid k (index + 1) (some p))
            | inr (q, second) ↦ rw (there, hit, second, sole_possible, scan_counter, wanted) refl
          ]
        ]
      ]

  check_candidate-pick :
      (e : Engine D) (primary : PacketRecord) (g : Gap) (k : ℕ)
      → check_candidate e primary g k ≡ pick e primary g k
  unfolding check_candidate pick
  check_candidate-pick e primary g k =
      let first = first_index e g in
      rw (sole_possible-scan_counter (g.after.stream_index - first) e primary.pid k first none) refl

  check_candidates-pick_all :
      (rounds : ℕ) (e : Engine D) (primary : PacketRecord) (g : Gap) (previous i : ℕ)
      → check_candidates rounds e primary g previous i ≡ pick_all rounds e primary g previous i
  unfolding check_candidates pick_all
  check_candidates-pick_all zero e primary g previous i = refl
  check_candidates-pick_all (suc n) e primary g previous i =
      rw
        (
          check_candidate-pick e primary g (add64 (previous + 1) i % 16),
          check_candidates-pick_all n e primary g previous (i + 1),
        )
        refl

  -- The two rows of checks, one written out and one put together from parts, agree step by step.
  pub content_checks-content_plan :
      (e : Engine D) (primary : PacketRecord) (g : Gap) (m : Missing)
      → content_checks e primary g m ≡ content_plan e primary g m
  unfolding content_checks content_plan check_ends check_order
  content_checks-content_plan e primary g m =
      let burst = not (ltb e.config.max_content_burst_packets m.count) in
      let too_large = refuse RejectReason.burst_too_large Reason.burst_too_large in
      let last : (ℕ → OutputPidState) → Step Refusal (Unit {0}) = λ states.
        guard (fits states primary)
          (refuse RejectReason.wrong_counter Reason.after_anchor_wrong_counter) in
      rw (check_candidates-pick_all m.count e primary g m.previous_cc 0) (
        ap (λ (r : Step Refusal (List PacketRecord)). guard burst too_large >> r)
          (row_first (not (ltb e.alignment.confidence e.config.min_alignment_confidence))
            (are_anchor (find_record (e.history 0) e.last_primary_anchor.primary_index)
              (find_record (e.history 1) e.last_primary_anchor.secondary_index))
            (not (primary.is_null || g.after.is_null || not (exact_match primary g.after)))
            (refuse RejectReason.low_alignment Reason.low_alignment)
            (refuse RejectReason.ambiguous Reason.before_anchor)
            (refuse RejectReason.ambiguous Reason.after_anchor) _ _
            (then_same (pick_all m.count e primary g m.previous_cc 0) _ _ (λ cs.
              order_first (fit_all e.output_pid_state cs)
                (refuse RejectReason.wrong_counter Reason.secondary_wrong_counter) last (go cs)))))

  insertion-IsAnnounced :
      (p : Status × Engine D) (n : ℕ)
      → (p.0 ≡ error → IsStuck p.1)
      → IsAnnounced true (insertion p n)
  insertion-IsAnnounced (ok, e) n h = inl refl
  insertion-IsAnnounced (error, e) n h = inr (refl, h refl)

  judge-IsAnnounced :
      (e : Engine D) (primary : PacketRecord) (m : ℕ) (plan : Step Refusal (List PacketRecord))
      → IsAnnounced (judge (some m) plan).valid (insert_content e primary m plan)
  judge-IsAnnounced e primary m (stop r) = inr refl
  judge-IsAnnounced e primary m (go cs) =
      insertion-IsAnnounced (insert_all (λ _. false) e cs) m (insert_all-IsStuck (λ _. false) e cs)

  -- Recovery and validation take the same way: both leave the gap, or both ask their rows of
  -- checks.
  pub recover_content-cases :
      (e : Engine D) (primary : PacketRecord) (after : Option PacketRecord)
      → ((recover_content e primary after ≡ (undecided, e))
          × ((validate_content e primary after).valid ≡ false))
        ⊎ ((g : Gap) × (m : Missing) × (recover_content e primary after
              ≡ insert_content e primary m.count (content_plan e primary g m))
            × (validate_content e primary after
                ≡ judge (some m.count) (content_checks e primary g m)))
  unfolding recover_content validate_content
  recover_content-cases e primary after = elim (Option-cases (content_gap e primary after)) [
    | inl absent ↦ inl (rw (absent, recover_content) refl, rw (absent, validate_content) refl)
    | inr (g, gap) ↦ elim (Option-cases (content_missing e primary g)) [
      | inl absent ↦
          inl (rw (gap, absent, recover_content) refl, rw (gap, absent, validate_content) refl)
      | inr (m, missing) ↦ elim (Bool-cases (m.count == 0)) [
        | inl z ↦ inl (
          rw (gap, missing, z, recover_content) refl,
          rw (gap, missing, z, validate_content) refl,
        )
        | inr s ↦ inr (
          g,
          m,
          rw (gap, missing, s, recover_content) refl,
          rw (gap, missing, s, validate_content) refl,
        )
      ]
    ]
  ]

  -- The functions `validate_exact_content_candidate` and `try_recover_exact_content_gap`, whose checks
  -- are translated apart from each other, agree: a candidate that the validation accepts is inserted by the recovery, or the recovery fails because the sink has
  -- refused the last packet that it was offered; one that it does not accept is never inserted: the
  -- recovery leaves the gap undecided or rejects it.
  pub recover_content-validate_content :
      (e : Engine D) (primary : PacketRecord) (after : Option PacketRecord)
      → IsAnnounced (validate_content e primary after).valid (recover_content e primary after)
  recover_content-validate_content e primary after = elim (recover_content-cases e primary after) [
    | inl (left, unfit) ↦ rw (left, unfit) (inl refl)
    | inr (g, m, tried, judged) ↦
        rw (tried, judged, content_checks-content_plan e primary g m)
          (judge-IsAnnounced e primary m.count (content_plan e primary g m))
  ]

-- ===== src/Engine/Recovery/Unique/Only.antt =====
-- `try_unique_candidate_recovery` of src/recovery_engine.c: the candidate that is recovered is the
-- only valid one.
use two_stream_recovery.Base.Step.{some-injective, go-injective, Step, go, stop}
use two_stream_recovery.Engine.Output.{Reason, Decision, undecided, rejected, inserted, reject}
use two_stream_recovery.Stats.{RejectReason}
use two_stream_recovery.Base.{
  ◌≢◌, refl, Option-cases, if◌then◌else◌, [], inr, ◌∙◌, inl, true, Bool-cases, sym, ◌∷◌, ◌++◌, ap,
  false, none, All, ◌≡◌, some, Bool, List, ℕ,
}
use two_stream_recovery.Engine.Recovery.Unique.{
  is_better, Choice, first_choice, Validator, Recovery, choose, settle, recover_unique,
}
use two_stream_recovery.Engine.State.{Engine, PacketRecord}
use two_stream_recovery.Engine.Boundary.{Candidates, candidate_record}
use two_stream_recovery.Engine.Recovery.{Validation}

module _ {D : Type 0} where
  abbrev verdict : Engine D → PacketRecord → Validator D → ℕ → Validation
  verdict e primary validator slot = validator e primary (some (candidate_record e slot))

  -- What the loop goes on with behind a candidate that is not valid.
  abbrev next_choice : Engine D → PacketRecord → Validator D → ℕ → Choice → Choice
  next_choice e primary validator slot c =
      if is_better c.best_reject (verdict e primary validator slot)
      then record c { best_reject = verdict e primary validator slot }
      else c

  abbrev is_valid : Engine D → PacketRecord → Validator D → ℕ → Bool
  is_valid e primary validator slot = (verdict e primary validator slot).valid

  next-winner :
      (e : Engine D) (primary : PacketRecord) (validator : Validator D) (slot : ℕ) (c : Choice)
      → (next_choice e primary validator slot c).winner ≡ c.winner
  next-winner e primary validator slot c =
      elim (Bool-cases (is_better c.best_reject (verdict e primary validator slot))) [
        | inl b ↦ rw b refl
        | inr b ↦ rw b refl
      ]

  -- None of the candidates is valid.
  abbrev pub NoneValid : Engine D → PacketRecord → Validator D → List ℕ → Type 0
  NoneValid e primary validator slots =
      All (λ slot. is_valid e primary validator slot ≡ false) slots

  -- One candidate is valid, with those before and after it not.
  pub record IsOnly (e : Engine D) (primary : PacketRecord) (validator : Validator D)
      (slots : List ℕ) (w : PacketRecord) : Type 0 where
    pub before : List ℕ
    pub slot : ℕ
    pub after : List ℕ
    pub split : slots ≡ before ++ (slot ∷ after)
    pub winner : candidate_record e slot ≡ w
    pub valid : is_valid e primary validator slot ≡ true
    pub none_before : NoneValid e primary validator before
    pub none_after : NoneValid e primary validator after

  after-IsOnly :
      (e : Engine D) (primary : PacketRecord) (validator : Validator D) (slot : ℕ) (slots : List ℕ)
      (w : PacketRecord)
      → is_valid e primary validator slot ≡ false
      → IsOnly e primary validator slots w
      → IsOnly e primary validator (slot ∷ slots) w
  after-IsOnly e primary validator slot slots w bad o = record {
    before = slot ∷ o.before;
    slot = o.slot;
    after = o.after;
    split = ap (λ xs. slot ∷ xs) o.split;
    winner = o.winner;
    valid = o.valid;
    none_before = (bad, o.none_before);
    none_after = o.none_after;
  }

  -- Once there is a winner, the loop ends regularly only if no other candidate is valid.
  choose-NoneValid :
      (e : Engine D) (primary : PacketRecord) (validator : Validator D) (slots : List ℕ)
      (c d : Choice) (w : PacketRecord)
      → c.winner ≡ some w
      → choose e primary validator slots c ≡ go d
      → NoneValid e primary validator slots × (d.winner ≡ some w)
  unfolding choose
  choose-NoneValid e primary validator [] c d w h r =
      (tt, ap (λ x. x.winner) (sym (go-injective r)) ∙ h)
  choose-NoneValid e primary validator (slot ∷ slots) c d w h r =
      elim (Bool-cases (is_valid e primary validator slot)) [
        | inl good ↦ cc (rw (good, h, choose) at r)
        | inr bad ↦
            let next = next_choice e primary validator slot c in
            let rest =
              choose-NoneValid e primary validator slots next d w
                (next-winner e primary validator slot c ∙ h) (rw (bad, choose) at r) in
            ((bad, rest.0), rest.1)
      ]

  choose-IsOnly :
      (e : Engine D) (primary : PacketRecord) (validator : Validator D) (slots : List ℕ)
      (c d : Choice) (w : PacketRecord)
      → c.winner ≡ none
      → choose e primary validator slots c ≡ go d
      → d.winner ≡ some w
      → IsOnly e primary validator slots w
  unfolding choose
  choose-IsOnly e primary validator [] c d w h r s = cc
  choose-IsOnly e primary validator (slot ∷ slots) c d w h r s =
      elim (Bool-cases (is_valid e primary validator slot)) [
        | inl good ↦
            let this = candidate_record e slot in
            let rest =
              choose-NoneValid e primary validator slots (record c { winner = some this }) d this
                refl (rw (good, h, choose) at r) in
            record {
              before = [];
              slot = slot;
              after = slots;
              split = refl;
              winner = some-injective (sym rest.1 ∙ s);
              valid = good;
              none_before = tt;
              none_after = rest.0;
            }
        | inr bad ↦ after-IsOnly e primary validator slot slots w bad (
            choose-IsOnly e primary validator slots (next_choice e primary validator slot c) d w
              (next-winner e primary validator slot c ∙ h) (rw (bad, choose) at r) s)
      ]

  not_inserted :
      (b : Bool) (e e' : Engine D)
      → (if◌then◌else◌ {A = Decision × Engine D} b (rejected, e) (undecided, e')).0 ≢ inserted
  not_inserted true e e' h = cc
  not_inserted false e e' h = cc

  settle-IsOnly :
      (e : Engine D) (primary : PacketRecord) (cs : Candidates) (validator : Validator D)
      (recover : Recovery D) (log_no_valid : Bool) (r : Step Validation Choice)
      → choose e primary validator cs.records first_choice ≡ r
      → (settle e primary cs recover log_no_valid r).0 ≡ inserted
      → (w : PacketRecord) × IsOnly e primary validator cs.records w
        × (settle e primary cs recover log_no_valid r ≡ recover e primary (some w))
  unfolding settle
  settle-IsOnly e primary cs validator recover log_no_valid (stop v) q h = cc
  settle-IsOnly e primary cs validator recover log_no_valid (go c) q h =
      elim (Option-cases c.winner) [
        | inl nobody ↦ absurd (not_inserted _ _ _ (rw (nobody, settle) at h))
        | inr (w, won) ↦ (
          w,
          choose-IsOnly e primary validator cs.records first_choice c w refl q won,
          rw (won, settle) refl,
        )
      ]

  settle-eq :
      (e : Engine D) (primary : PacketRecord) (cs : Candidates) (validator : Validator D)
      (recover : Recovery D) (log_no_valid : Bool)
      → cs.truncated ≡ false
      → recover_unique e primary cs validator recover log_no_valid
        ≡ settle e primary cs recover log_no_valid
            (choose e primary validator cs.records first_choice)
  unfolding recover_unique
  settle-eq e primary cs validator recover log_no_valid all =
      ap
        (λ b.
          if◌then◌else◌ {A = Decision × Engine D} b
            (rejected, reject e primary none RejectReason.ambiguous Reason.too_many_after_anchors)
            (settle e primary cs recover log_no_valid
              (choose e primary validator cs.records first_choice)))
        all

  cut-eq :
      (e : Engine D) (primary : PacketRecord) (cs : Candidates) (validator : Validator D)
      (recover : Recovery D) (log_no_valid : Bool)
      → cs.truncated ≡ true
      → recover_unique e primary cs validator recover log_no_valid
        ≡ (rejected, reject e primary none RejectReason.ambiguous Reason.too_many_after_anchors)
  unfolding recover_unique
  cut-eq e primary cs validator recover log_no_valid cut =
      ap
        (λ b.
          if◌then◌else◌ {A = Decision × Engine D} b
            (rejected, reject e primary none RejectReason.ambiguous Reason.too_many_after_anchors)
            (settle e primary cs recover log_no_valid
              (choose e primary validator cs.records first_choice)))
        cut

  -- Where the unique-candidate recovery reports an insertion, the search for candidates was not cut
  -- off, exactly one of the candidates is valid by the validation, the others before and after it
  -- are not, and what was done is the recovery with this candidate.
  pub recover_unique-IsOnly :
      (e : Engine D) (primary : PacketRecord) (cs : Candidates) (validator : Validator D)
      (recover : Recovery D) (log_no_valid : Bool)
      → (recover_unique e primary cs validator recover log_no_valid).0 ≡ inserted
      → (cs.truncated ≡ false)
        × ((w : PacketRecord) × IsOnly e primary validator cs.records w
            × (recover_unique e primary cs validator recover log_no_valid
                ≡ recover e primary (some w)))
  recover_unique-IsOnly e primary cs validator recover log_no_valid h =
      elim (Bool-cases cs.truncated) [
        | inl cut ↦
            cc (sym (ap (λ p. p.0) (cut-eq e primary cs validator recover log_no_valid cut)) ∙ h)
        | inr all ↦
            let same = settle-eq e primary cs validator recover log_no_valid all in
            let r =
              settle-IsOnly e primary cs validator recover log_no_valid
                (choose e primary validator cs.records first_choice) refl
                (sym (ap (λ p. p.0) same) ∙ h) in
            (all, (r.0, r.1, same ∙ r.2))
      ]

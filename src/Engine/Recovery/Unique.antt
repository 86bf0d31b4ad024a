-- ===== src/Engine/Recovery/Unique.antt =====
-- src/recovery_engine.c, `try_unique_candidate_recovery`: a recovery is tried only if exactly one
-- candidate for the packet after the gap is valid.
pub mod Only
use two_stream_recovery.Base.{
  ℕ, ◌+◌, Bool, true, false, not, ◌&&◌, ◌||◌, ltb, ◌==◌, if◌then◌else◌, Option, none, some, List,
  [], ◌∷◌, length,
}
use two_stream_recovery.Base.Step.{Step, go, stop}
use two_stream_recovery.Stats.{RejectReason, reject_index}
use two_stream_recovery.Engine.State.{Engine, PacketRecord}
use two_stream_recovery.Engine.Boundary.{Candidates, candidate_record}
use two_stream_recovery.Engine.Output.{Reason, Decision, undecided, rejected, reject}
use two_stream_recovery.Engine.Recovery.{Validation, refuse, invalid}

-- `validation_reject_is_definitive`.
unfoldable pub is_definitive : RejectReason → Bool
is_definitive RejectReason.wrong_counter = true
is_definitive RejectReason.tei = true
is_definitive RejectReason.discontinuity = true
is_definitive RejectReason.burst_too_large = true
is_definitive RejectReason.low_alignment = true
is_definitive _ = false

abbrev is_null {ℓ} : {A : Type ℓ} → Option A → Bool
is_null none = true
is_null (some a) = false

-- The test by which `best_reject` is replaced.
unfoldable pub is_better : Validation → Validation → Bool
is_better best v =
    is_null best.reason
    || (not (is_null v.missing) && is_null best.missing)
    || not (reject_index v.reject_reason == reject_index RejectReason.missing_candidate)

-- `winner` and `best_reject`.
pub record Choice : Type 0 where
  pub winner : Option PacketRecord
  pub best_reject : Validation

abbrev pub first_choice : Choice
first_choice = record {
  winner = none;
  best_reject = invalid (refuse RejectReason.missing_candidate Reason.missing_candidate) none;
}

abbrev pub Validator : Type 0 → Type 0
Validator D = Engine D → PacketRecord → Option PacketRecord → Validation

abbrev pub Recovery : Type 0 → Type 0
Recovery D = Engine D → PacketRecord → Option PacketRecord → Decision × Engine D

abbrev reason_or : Option Reason → Reason
reason_or none = Reason.no_valid_after_anchor
reason_or (some r) = r

module _ {D : Type 0} where
  -- The loop over the candidates; it stops with the validation of a second valid one.
  unfoldable pub choose :
      Engine D → PacketRecord → Validator D → List ℕ → Choice → Step Validation Choice
  unfolding is_better
  choose e primary validator [] c = go c
  choose e primary validator (slot ∷ slots) c =
      let r = candidate_record e slot in
      let v = validator e primary (some r) in
      elim v.valid [
        | true ↦ elim c.winner [
          | some w ↦ stop v
          | none ↦ choose e primary validator slots (record c { winner = some r })
        ]
        | false ↦
            choose e primary validator slots
              (if is_better c.best_reject v then record c { best_reject = v } else c)
      ]

  -- What follows the loop.
  unfoldable pub settle :
      Engine D
      → PacketRecord
      → Candidates
      → Recovery D
      → Bool
      → Step Validation Choice
      → Decision × Engine D
  unfolding is_definitive
  settle e primary cs recover log_no_valid (stop v) = (
    rejected,
    reject e primary v.missing RejectReason.ambiguous Reason.multiple_valid_after_anchors,
  )
  settle e primary cs recover log_no_valid (go c) = elim c.winner [
    | some w ↦ recover e primary (some w)
    | none ↦
        if ltb 0 (length cs.records) && (log_no_valid || is_definitive c.best_reject.reject_reason)
        then (
          rejected,
          reject e primary c.best_reject.missing c.best_reject.reject_reason
              (reason_or c.best_reject.reason),
        )
        else (undecided, e)
  ]

  -- `try_unique_candidate_recovery`.
  unfoldable pub recover_unique :
      Engine D → PacketRecord → Candidates → Validator D → Recovery D → Bool → Decision × Engine D
  unfolding choose settle
  recover_unique e primary cs validator recover log_no_valid =
      if cs.truncated
      then (rejected, reject e primary none RejectReason.ambiguous Reason.too_many_after_anchors)
      else settle e primary cs recover log_no_valid
          (choose e primary validator cs.records first_choice)

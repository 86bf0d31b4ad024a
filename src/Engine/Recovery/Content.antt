-- ===== src/Engine/Recovery/Content.antt =====
-- src/recovery_engine.c, `try_recover_exact_content_gap`: the packets of one PID that its continuity
-- counter shows to be missing.
pub mod Checks
pub mod Plan
pub mod Inserted
pub mod Agree
use two_stream_recovery.Base.{
  ℕ, zero, suc, ◌+◌, ◌-◌, ◌%◌, Bool, true, false, not, ◌&&◌, ◌||◌, ltb, leb, ◌==◌, if◌then◌else◌,
  add64, sub64, Option, none, some, List, [], ◌∷◌,
}
use two_stream_recovery.Base.Step.{Step, go, stop, ◌>>=◌, ◌>>◌, guard, present}
use two_stream_recovery.Stats.{RejectReason}
use two_stream_recovery.Engine.State.{Engine, PacketRecord, OutputPidState}
use two_stream_recovery.Engine.History.{find_record}
use two_stream_recovery.Engine.Match.{fits, infer_missing}
use two_stream_recovery.Engine.Output.{Reason, Decision, undecided, previous_output_cc}
use two_stream_recovery.Engine.Recovery.{
  Refusal, refuse, Validation, invalid, accepted, Gap, missing_packets, gap_of, check_ends,
  prefix_matches, fit_all, insert_all, insertion, refused,
}

-- The last counter output for the PID, and how many packets are missing after it.
pub record Missing : Type 0 where
  pub previous_cc : ℕ
  pub count : ℕ

-- `has_cc_missing_count` and `cc_missing_count`: from the counters, or from the number of packets
-- missing between the anchors where the counter has come round to the same value.
unfoldable pub missing_after : ℕ → PacketRecord → ℕ → Option Missing
unfolding infer_missing
missing_after previous primary packets = elim (infer_missing previous primary) [
  | some k ↦ some (record { previous_cc = previous; count = k })
  | none ↦
      if primary.has_payload
        && ltb 0 packets
        && leb packets 15
        && primary.continuity_counter == add64 (add64 previous packets) 1 % 16
      then some (record { previous_cc = previous; count = packets })
      else none
]

-- The checks on a copy of the output states: each candidate in turn, then the primary.
unfoldable pub check_order :
    (ℕ → OutputPidState) → PacketRecord → List PacketRecord → Step Refusal (Unit {0})
unfolding fit_all
check_order states primary cs = do
  after ←
      present (fit_all states cs) (refuse RejectReason.wrong_counter Reason.secondary_wrong_counter)
  guard (fits after primary) (refuse RejectReason.wrong_counter Reason.after_anchor_wrong_counter)

module _ {D : Type 0} where
  -- A gap that the primary's counter shows, up to `record_fits_next_output`.
  unfoldable pub content_gap : Engine D → PacketRecord → Option PacketRecord → Option Gap
  unfolding gap_of
  content_gap e primary after = elim (gap_of e primary after) [
    | none ↦ none
    | some g ↦
        if ltb g.secondary_between g.primary_between
        then none
        else if fits e.output_pid_state primary
        then none
        else some g
  ]

  unfoldable pub content_missing : Engine D → PacketRecord → Gap → Option Missing
  unfolding previous_output_cc missing_after
  content_missing e primary g = elim (previous_output_cc e primary) [
    | none ↦ none
    | some previous ↦ missing_after previous primary (missing_packets g)
  ]

  -- `candidate_first_index`: behind the packets that both streams have after the anchor.
  unfoldable pub first_index : Engine D → Gap → ℕ
  unfolding prefix_matches
  first_index e g =
      let first : ℕ = add64 e.last_primary_anchor.secondary_index 1 in
      if ltb 0 g.primary_between
        && ltb g.primary_between g.secondary_between
        && prefix_matches g.primary_between e 0
      then add64 first g.primary_between
      else first

  -- The secondary record at an index, if it has the PID and the counter that are looked for.
  unfoldable pub wanted : Engine D → ℕ → ℕ → ℕ → Option PacketRecord
  wanted e pid cc index = elim (find_record (e.history 1) index) [
    | none ↦ none
    | some p ↦
        if not p.is_null && p.has_payload && p.pid == pid && p.continuity_counter == cc
        then some p
        else none
  ]

  -- The loop over the secondary indices: a second find is ambiguous.
  unfoldable pub scan_counter :
      ℕ → Engine D → ℕ → ℕ → ℕ → Option PacketRecord → Step Refusal (Option PacketRecord)
  scan_counter zero e pid cc index found = go found
  scan_counter (suc rounds) e pid cc index found = elim (wanted e pid cc index) [
    | none ↦ scan_counter rounds e pid cc (index + 1) found
    | some p ↦ elim found [
      | some q ↦ stop (refuse RejectReason.ambiguous Reason.multiple_candidates)
      | none ↦ scan_counter rounds e pid cc (index + 1) (some p)
    ]
  ]

  -- The only packet of a gap of one, if none has the counter.
  unfoldable pub fallback : Engine D → Gap → Option PacketRecord → Option PacketRecord
  fallback e g (some p) = some p
  fallback e g none =
      if missing_packets g == 1
      then find_record (e.history 1) (
          if g.primary_between == 0
          then add64 e.last_primary_anchor.secondary_index 1
          else sub64 g.after.stream_index 1)
      else none

  -- The candidate for one missing counter, and the checks on it.
  unfoldable pub pick : Engine D → PacketRecord → Gap → ℕ → Step Refusal PacketRecord
  pick e primary g cc = do
    let first = first_index e g
    found ← scan_counter (g.after.stream_index - first) e primary.pid cc first none
    c ←
        present (fallback e g found)
          (refuse RejectReason.missing_candidate Reason.missing_candidate)
    guard (not c.is_null) (refuse RejectReason.wrong_pid Reason.null_candidate)
    guard (not c.transport_error) (refuse RejectReason.tei Reason.secondary_tei)
    guard (not c.discontinuity_indicator)
        (refuse RejectReason.discontinuity Reason.secondary_discontinuity)
    guard (c.pid == primary.pid) (refuse RejectReason.wrong_pid Reason.wrong_pid)
    guard (not (not c.has_payload || not (c.continuity_counter == cc)))
        (refuse RejectReason.wrong_counter Reason.wrong_counter)
    go c

  -- The loop over the missing counters, from the `i`-th on.
  unfoldable pub pick_all :
      ℕ → Engine D → PacketRecord → Gap → ℕ → ℕ → Step Refusal (List PacketRecord)
  pick_all zero e primary g previous i = go []
  pick_all (suc rounds) e primary g previous i = do
    c ← pick e primary g (add64 (previous + 1) i % 16)
    cs ← pick_all rounds e primary g previous (i + 1)
    go (c ∷ cs)

  -- What to insert, or why not, once the gap and the number of missing packets are known.
  unfoldable pub content_plan :
      Engine D → PacketRecord → Gap → Missing → Step Refusal (List PacketRecord)
  content_plan e primary g m = do
    guard (not (ltb e.config.max_content_burst_packets m.count))
        (refuse RejectReason.burst_too_large Reason.burst_too_large)
    check_ends e primary g
    cs ← pick_all m.count e primary g m.previous_cc 0
    check_order e.output_pid_state primary cs
    go cs

  abbrev pub insert_content :
      Engine D → PacketRecord → ℕ → Step Refusal (List PacketRecord) → Decision × Engine D
  insert_content e primary missing (stop r) = refused e primary missing r
  insert_content e primary missing (go cs) = insertion (insert_all (λ _. false) e cs) missing

  -- `try_recover_exact_content_gap`.
  unfoldable pub recover_content :
      Engine D → PacketRecord → Option PacketRecord → Decision × Engine D
  unfolding content_gap content_missing
  recover_content e primary after = elim (content_gap e primary after) [
    | none ↦ (undecided, e)
    | some g ↦ elim (content_missing e primary g) [
      | none ↦ (undecided, e)
      | some m ↦
          if m.count == 0
          then (undecided, e)
          else insert_content e primary m.count (content_plan e primary g m)
    ]
  ]

-- ===== src/Engine/Recovery.antt =====
-- src/recovery_engine.c, what the recoveries of a gap share: the distance from the last anchor, the
-- checks on both ends of the gap, and the output of what was recovered.
pub mod Content
pub mod Mixed
pub mod NullRegion
pub mod Tei
pub mod Unique
pub mod Insert
pub mod Kept
pub mod There
pub mod Taken
pub mod Stuck
pub mod Rejects
pub mod Account
use two_stream_recovery.Base.{
  ℕ, zero, suc, ◌+◌, ◌-◌, Bool, true, false, not, ◌&&◌, ◌||◌, ltb, leb, ◌==◌, if◌then◌else◌, add64,
  sub64, Option, none, some, List, [], ◌∷◌,
}
use two_stream_recovery.Base.Step.{Step, go, stop, ◌>>=◌, ◌>>◌, guard}
use two_stream_recovery.Stats.{RejectReason}
use two_stream_recovery.Engine.State.{Engine, PacketRecord, OutputPidState, Status, ok, error}
use two_stream_recovery.Engine.History.{find_record}
use two_stream_recovery.Engine.Match.{exact_match, are_anchor, fits, observe_states}
use two_stream_recovery.Engine.Output.{
  Reason, Decision, inserted, rejected, failed, undecided, output_record, observe_recovered, reject,
}

-- Why a gap is refused: the counter to raise and the text of the log.
pub record Refusal : Type 0 where
  pub reject_reason : RejectReason
  pub reason : Reason

abbrev pub refuse : RejectReason → Reason → Refusal
refuse r s = record { reject_reason = r; reason = s }

-- `recovery_candidate_validation_t`; `reason` is `none` for NULL, and `missing` for a count that is
-- not known.
pub record Validation : Type 0 where
  pub valid : Bool
  pub reject_reason : RejectReason
  pub reason : Option Reason
  pub missing : Option ℕ

abbrev pub invalid : Refusal → Option ℕ → Validation
invalid r missing = record {
  valid = false;
  reject_reason = r.reject_reason;
  reason = some r.reason;
  missing = missing;
}

abbrev pub accepted : Option ℕ → Validation
accepted missing = record {
  valid = true;
  reject_reason = RejectReason.missing_candidate;
  reason = none;
  missing = missing;
}

-- `primary_between` and `secondary_between`, with the secondary record after the gap.
pub record Gap : Type 0 where
  pub after : PacketRecord
  pub primary_between : ℕ
  pub secondary_between : ℕ

-- `missing_packets`.
abbrev pub missing_packets : Gap → ℕ
missing_packets g = sub64 g.secondary_between g.primary_between

-- The packets between the anchor and a record, `index - anchor - 1`.
abbrev pub between : ℕ → ℕ → ℕ
between index anchor = sub64 (sub64 index anchor) 1

-- `primary_prefix == NULL || secondary_prefix == NULL || !records_exact_non_error_match(...)`,
-- negated.
abbrev pub prefix_match : Option PacketRecord → Option PacketRecord → Bool
prefix_match none b = false
prefix_match (some a) none = false
prefix_match (some a) (some b) = exact_match a b

module _ {D : Type 0} where
  -- The first checks of each validation and recovery: `none` is an early return.
  unfoldable pub gap_of : Engine D → PacketRecord → Option PacketRecord → Option Gap
  gap_of e primary none = none
  gap_of e primary (some after) =
      let anchor = e.last_primary_anchor in
      if primary.is_null
        || primary.transport_error
        || primary.discontinuity_indicator
        || not anchor.valid
      then none
      else if leb after.stream_index anchor.secondary_index
          || leb primary.stream_index anchor.primary_index
      then none
      else some (record {
        after = after;
        primary_between = between primary.stream_index anchor.primary_index;
        secondary_between = between after.stream_index anchor.secondary_index;
      })

  -- The alignment and the anchors on both sides of the gap, in the order of the source.
  unfoldable pub check_ends : Engine D → PacketRecord → Gap → Step Refusal (Unit {0})
  unfolding are_anchor exact_match
  check_ends e primary g = do
    guard (not (ltb e.alignment.confidence e.config.min_alignment_confidence))
        (refuse RejectReason.low_alignment Reason.low_alignment)
    guard
        (are_anchor (find_record (e.history 0) e.last_primary_anchor.primary_index)
          (find_record (e.history 1) e.last_primary_anchor.secondary_index))
        (refuse RejectReason.ambiguous Reason.before_anchor)
    guard (not (primary.is_null || g.after.is_null || not (exact_match primary g.after)))
        (refuse RejectReason.ambiguous Reason.after_anchor)

  -- The loop that compares the packets after the anchor on both streams, from the `i`-th on.
  unfoldable pub prefix_matches : ℕ → Engine D → ℕ → Bool
  prefix_matches zero e i = true
  prefix_matches (suc rounds) e i =
      let anchor = e.last_primary_anchor in
      let rest = prefix_matches rounds e (i + 1) in
      if prefix_match (find_record (e.history 0) (add64 (add64 anchor.primary_index 1) i))
        (find_record (e.history 1) (add64 (add64 anchor.secondary_index 1) i))
      then rest
      else false

-- The loop over the candidates that checks each against the output states; `none` is the first one
-- that does not fit.
unfoldable pub fit_all : (ℕ → OutputPidState) → List PacketRecord → Option (ℕ → OutputPidState)
fit_all states [] = some states
fit_all states (c ∷ cs) = elim (fits states c) [
  | true ↦ fit_all (observe_states states c) cs
  | false ↦ none
]

module _ {D : Type 0} where
  -- The loop that outputs the recovered records; `counts_as` is the argument of
  -- `report_stats_observe_recovery` for each.
  unfoldable pub insert_all :
      (PacketRecord → Bool) → Engine D → List PacketRecord → Status × Engine D
  insert_all counts_as e [] = (ok, e)
  insert_all counts_as e (c ∷ cs) =
      let (status, e') = output_record e c in
      elim status [
        | error ↦ (error, e')
        | ok ↦ insert_all counts_as (observe_recovered e' (counts_as c)) cs
      ]

  -- The same loop where each record is looked up once more, from the `i`-th of the gap on; a record
  -- that is gone is an error.
  unfoldable pub insert_range : (PacketRecord → Bool) → ℕ → Engine D → ℕ → ℕ → Status × Engine D
  insert_range counts_as zero e first i = (ok, e)
  insert_range counts_as (suc rounds) e first i = elim (find_record (e.history 1) (add64 first i)) [
    | none ↦ (error, e)
    | some c ↦
        let (status, e') = output_record e c in
        elim status [
          | error ↦ (error, e')
          | ok ↦ insert_range counts_as rounds (observe_recovered e' (counts_as c)) first (i + 1)
        ]
  ]

  -- `recovered_content_bursts++` for more than one packet.
  unfoldable pub count_burst : Engine D → ℕ → Engine D
  count_burst e n =
      if ltb 1 n
      then record e {
        stats = record e.stats {
          recovered_content_bursts = add64 e.stats.recovered_content_bursts 1;
        };
      }
      else e

  -- The decision after the output: -1 if the sink failed.
  abbrev pub insertion : Status × Engine D → ℕ → Decision × Engine D
  insertion (ok, e) burst = (inserted, count_burst e burst)
  insertion (error, e) burst = (failed, e)

  abbrev pub refused : Engine D → PacketRecord → ℕ → Refusal → Decision × Engine D
  refused e primary missing r = (rejected, reject e primary (some missing) r.reject_reason r.reason)

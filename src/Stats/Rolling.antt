-- ===== src/Stats/Rolling.antt =====
-- src/report_stats.c, the ring of one sample a second over the last minute.
use two_stream_recovery.Base.{
  ℕ, ◌+◌, ◌-◌, ◌%◌, not, ◌&&◌, ltb, leb, ◌==◌, if◌then◌else◌, update, add64, sub64, Option, none,
  some,
}
use two_stream_recovery.Stats.{Stats, Sample, rolling_seconds}

-- The seven values of `compute_rolling_window`.
pub record Window60 : Type 0 where
  pub packets : ℕ → ℕ
  pub cc_errors : ℕ → ℕ
  pub recovered : ℕ
  pub unrecoverable : ℕ
  pub output : ℕ

module _ {D : Type 0} where
  -- The index of `oldest_rolling_sample`; `none` is NULL.
  unfoldable pub oldest_rolling_index : Stats D → Option ℕ
  oldest_rolling_index s =
      if s.rolling_count == 0
      then none
      else if ltb s.rolling_count rolling_seconds
      then some 0
      else some s.rolling_index

  unfoldable pub oldest_rolling_sample : Stats D → Option Sample
  unfolding oldest_rolling_index
  oldest_rolling_sample s = elim (oldest_rolling_index s) [
    | none ↦ none
    | some i ↦ some (s.rolling_samples i)
  ]

  -- The index of `rolling_sample_ago`.
  unfoldable pub rolling_index_ago : Stats D → ℕ → Option ℕ
  unfolding oldest_rolling_index
  rolling_index_ago s seconds =
      let newest : ℕ = if s.rolling_index == 0 then rolling_seconds - 1 else s.rolling_index - 1 in
      if s.rolling_count == 0
      then none
      else if leb s.rolling_count seconds
      then oldest_rolling_index s
      else some (sub64 (add64 newest rolling_seconds) seconds % rolling_seconds)

  unfoldable pub rolling_sample_ago : Stats D → ℕ → Option Sample
  unfolding rolling_index_ago
  rolling_sample_ago s seconds = elim (rolling_index_ago s seconds) [
    | none ↦ none
    | some i ↦ some (s.rolling_samples i)
  ]

  -- What `capture_rolling_sample` writes into the sample.
  unfoldable pub sample_of : Stats D → Sample
  sample_of s = record {
    packets_received = s.packets_received;
    sync_errors = s.sync_errors;
    transport_errors = s.transport_errors;
    continuity_errors = s.continuity_errors;
    duplicate_counters = s.duplicate_counters;
    recovered_packets = s.recovered_packets;
    unrecoverable_loss = s.unrecoverable_loss;
    output_packets = s.output_packets;
    output_continuity_errors = s.output_continuity_errors;
    output_duplicate_counters = s.output_duplicate_counters;
    stream_disagreements = s.stream_disagreements;
    primary_delay_overflows = s.primary_delay_overflows;
    secondary_loss_events = s.secondary_loss_events;
    secondary_missing_packets = s.secondary_missing_packets;
    secondary_missing_anchors = s.secondary_missing_anchors;
    secondary_packets_too_late = s.secondary_packets_too_late;
    primary_delay_insufficient = s.primary_delay_insufficient;
    recovery_exact_cc_gap = s.recovery_exact_cc_gap;
    source_switches = s.source_switches;
    active_output_stream_id = s.active_output_stream_id;
    alignment_confidence = s.alignment_confidence;
  }

  -- `capture_rolling_sample`.
  unfoldable pub capture_rolling_sample : Stats D → Stats D
  unfolding sample_of
  capture_rolling_sample s = record s {
    rolling_samples = update s.rolling_samples s.rolling_index (sample_of s);
    rolling_index = add64 s.rolling_index 1 % rolling_seconds;
    rolling_count =
        if ltb s.rolling_count rolling_seconds then s.rolling_count + 1 else s.rolling_count;
  }

  -- `report_stats_tick`, with its reading of the clock.
  unfoldable pub tick : Stats D → ℕ → Stats D
  unfolding capture_rolling_sample
  tick s now =
      if now == 0
      then s
      else if not (s.last_sample_ns == 0) && ltb (sub64 now s.last_sample_ns) 1_000_000_000
      then s
      else record (capture_rolling_sample s) { last_sample_ns = now }

  -- `compute_rolling_window`.
  unfoldable pub compute_rolling_window : Stats D → Window60
  unfolding oldest_rolling_sample
  compute_rolling_window s = elim (oldest_rolling_sample s) [
    | none ↦ record {
      packets = λ _. 0;
      cc_errors = λ _. 0;
      recovered = 0;
      unrecoverable = 0;
      output = 0;
    }
    | some oldest ↦ record {
      packets = λ i. sub64 (s.packets_received i) (oldest.packets_received i);
      cc_errors = λ i. sub64 (s.continuity_errors i) (oldest.continuity_errors i);
      recovered = sub64 s.recovered_packets oldest.recovered_packets;
      unrecoverable = sub64 s.unrecoverable_loss oldest.unrecoverable_loss;
      output = sub64 s.output_packets oldest.output_packets;
    }
  ]

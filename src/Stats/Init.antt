-- ===== src/Stats/Init.antt =====
-- src/report_stats.c: the clock, and the counters at the start.
use two_stream_recovery.Base.{ℕ, ◌+◌, ◌*◌, ◌^◌, ◌%◌, pos, false, none, some, Option}
use two_stream_recovery.Stats.{Stats, Sample, StreamHealth}
use two_stream_recovery.Stats.Double.{Double}

-- `report_stats_now_ns`: `none` is a `clock_gettime` that fails.
unfoldable pub now_ns : Option (ℕ × ℕ) → ℕ
now_ns none = 0
now_ns (some (seconds, nanoseconds)) = (seconds * 1_000_000_000 + nanoseconds) % 2 ^ 64

abbrev zero_sample : Sample
zero_sample = record {
  packets_received = λ _. 0;
  sync_errors = λ _. 0;
  transport_errors = λ _. 0;
  continuity_errors = λ _. 0;
  duplicate_counters = λ _. 0;
  recovered_packets = 0;
  unrecoverable_loss = 0;
  output_packets = 0;
  output_continuity_errors = 0;
  output_duplicate_counters = 0;
  stream_disagreements = 0;
  primary_delay_overflows = 0;
  secondary_loss_events = 0;
  secondary_missing_packets = 0;
  secondary_missing_anchors = 0;
  secondary_packets_too_late = 0;
  primary_delay_insufficient = 0;
  recovery_exact_cc_gap = 0;
  source_switches = λ _. 0;
  active_output_stream_id = 0;
  alignment_confidence = 0;
}

module _ {D : Type 0} (F : Double D) where
  open F use {literal}

  abbrev zero_d : D
  zero_d = literal 0 1

  -- `report_stats_init`, with the clock reading that it takes.
  unfoldable pub init : ℕ → Stats D
  init now = record {
    input_datagrams = λ _. 0;
    malformed_datagrams = λ _. 0;
    partial_datagrams = λ _. 0;
    resync_events = λ _. 0;
    output_datagrams = 0;
    output_short_flushes = 0;
    packets_received = λ _. 0;
    sync_errors = λ _. 0;
    transport_errors = λ _. 0;
    continuity_errors = λ _. 0;
    duplicate_counters = λ _. 0;
    null_packets = λ _. 0;
    pcr_packets = λ _. 0;
    stream_disagreements = 0;
    primary_delay_overflows = 0;
    recovered_null_packets = 0;
    recovered_content_packets = 0;
    recovered_content_bursts = 0;
    unrecoverable_null_regions = 0;
    secondary_loss_events = 0;
    secondary_missing_packets = 0;
    secondary_missing_anchors = 0;
    pcr_timing_confidence = λ _. 0;
    pcr_bitrate_bps = λ _. zero_d;
    pcr_delay_ns = zero_d;
    pcr_delay_samples = 0;
    observed_secondary_latency_min_ns = zero_d;
    observed_secondary_latency_avg_ns = zero_d;
    observed_secondary_latency_max_ns = zero_d;
    observed_secondary_latency_jitter_ns = zero_d;
    observed_secondary_latency_samples = 0;
    secondary_packets_too_late = 0;
    primary_delay_insufficient = 0;
    recovery_rejects = λ _. 0;
    recovery_exact_cc_gap = 0;
    stream_health = λ _. StreamHealth.healthy;
    output_health = StreamHealth.healthy;
    alignment_offset_packets = pos 0;
    alignment_confidence = 0;
    per_pid_packets = λ _ _. 0;
    recovered_packets = 0;
    unrecoverable_loss = 0;
    output_packets = 0;
    output_continuity_errors = 0;
    output_duplicate_counters = 0;
    source_switches = λ _. 0;
    active_output_stream_id = 0;
    last_recovery_event_time = 0;
    last_report_ns = now;
    last_sample_ns = now;
    last_health_update_ns = 0;
    last_packet_ns = λ _. now;
    rolling_samples = λ _. zero_sample;
    rolling_index = 0;
    rolling_count = 0;
    last_continuity_counter = λ _ _. 0;
    has_continuity_counter = λ _ _. false;
  }

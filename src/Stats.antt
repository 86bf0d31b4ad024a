-- ===== src/Stats.antt =====
-- src/report_stats.h: the counters that the whole program shares.
-- `D` is the type of C doubles, of which the model knows the operations only (`Double`).
pub mod Double
pub mod Init
pub mod Latency
pub mod Observe
pub mod Rolling
pub mod Health
pub mod Counters
use two_stream_recovery.Base.{ℕ, ℤ, Bool}

abbrev pub streams : ℕ
streams = 2

abbrev pub rolling_seconds : ℕ
rolling_seconds = 60

abbrev pub quiet_seconds : ℕ
quiet_seconds = 30

abbrev pub health_interval_ns : ℕ
health_interval_ns = 5_000_000_000

abbrev pub offline_ns : ℕ
offline_ns = 5_000_000_000

-- `enum stream_health`.
pub data StreamHealth : Type 0 where
  healthy degraded lossy untrusted offline : StreamHealth

-- `enum recovery_reject_reason`.
pub data RejectReason : Type 0 where
  low_alignment secondary_late tei discontinuity wrong_pid wrong_counter : RejectReason
  ambiguous burst_too_large missing_candidate : RejectReason

-- The value of the enumerator, which indexes `recovery_rejects`.
abbrev pub reject_index : RejectReason → ℕ
reject_index RejectReason.low_alignment = 0
reject_index RejectReason.secondary_late = 1
reject_index RejectReason.tei = 2
reject_index RejectReason.discontinuity = 3
reject_index RejectReason.wrong_pid = 4
reject_index RejectReason.wrong_counter = 5
reject_index RejectReason.ambiguous = 6
reject_index RejectReason.burst_too_large = 7
reject_index RejectReason.missing_candidate = 8

-- `report_stats_sample_t`; an array of one cell for each stream is a function from the stream.
pub record Sample : Type 0 where
  pub packets_received : ℕ → ℕ
  pub sync_errors : ℕ → ℕ
  pub transport_errors : ℕ → ℕ
  pub continuity_errors : ℕ → ℕ
  pub duplicate_counters : ℕ → ℕ
  pub recovered_packets : ℕ
  pub unrecoverable_loss : ℕ
  pub output_packets : ℕ
  pub output_continuity_errors : ℕ
  pub output_duplicate_counters : ℕ
  pub stream_disagreements : ℕ
  pub primary_delay_overflows : ℕ
  pub secondary_loss_events : ℕ
  pub secondary_missing_packets : ℕ
  pub secondary_missing_anchors : ℕ
  pub secondary_packets_too_late : ℕ
  pub primary_delay_insufficient : ℕ
  pub recovery_exact_cc_gap : ℕ
  pub source_switches : ℕ → ℕ
  pub active_output_stream_id : ℕ
  pub alignment_confidence : ℕ

-- `report_stats_t`.
pub record Stats (D : Type 0) : Type 0 where
  pub input_datagrams : ℕ → ℕ
  pub malformed_datagrams : ℕ → ℕ
  pub partial_datagrams : ℕ → ℕ
  pub resync_events : ℕ → ℕ
  pub output_datagrams : ℕ
  pub output_short_flushes : ℕ
  pub packets_received : ℕ → ℕ
  pub sync_errors : ℕ → ℕ
  pub transport_errors : ℕ → ℕ
  pub continuity_errors : ℕ → ℕ
  pub duplicate_counters : ℕ → ℕ
  pub null_packets : ℕ → ℕ
  pub pcr_packets : ℕ → ℕ
  pub stream_disagreements : ℕ
  pub primary_delay_overflows : ℕ
  pub recovered_null_packets : ℕ
  pub recovered_content_packets : ℕ
  pub recovered_content_bursts : ℕ
  pub unrecoverable_null_regions : ℕ
  pub secondary_loss_events : ℕ
  pub secondary_missing_packets : ℕ
  pub secondary_missing_anchors : ℕ
  pub pcr_timing_confidence : ℕ → ℕ
  pub pcr_bitrate_bps : ℕ → D
  pub pcr_delay_ns : D
  pub pcr_delay_samples : ℕ
  pub observed_secondary_latency_min_ns : D
  pub observed_secondary_latency_avg_ns : D
  pub observed_secondary_latency_max_ns : D
  pub observed_secondary_latency_jitter_ns : D
  pub observed_secondary_latency_samples : ℕ
  pub secondary_packets_too_late : ℕ
  pub primary_delay_insufficient : ℕ
  pub recovery_rejects : ℕ → ℕ
  pub recovery_exact_cc_gap : ℕ
  pub stream_health : ℕ → StreamHealth
  pub output_health : StreamHealth
  pub alignment_offset_packets : ℤ
  pub alignment_confidence : ℕ
  pub per_pid_packets : ℕ → ℕ → ℕ
  pub recovered_packets : ℕ
  pub unrecoverable_loss : ℕ
  pub output_packets : ℕ
  pub output_continuity_errors : ℕ
  pub output_duplicate_counters : ℕ
  pub source_switches : ℕ → ℕ
  pub active_output_stream_id : ℕ
  pub last_recovery_event_time : ℕ
  pub last_report_ns : ℕ
  pub last_sample_ns : ℕ
  pub last_health_update_ns : ℕ
  pub last_packet_ns : ℕ → ℕ
  pub rolling_samples : ℕ → Sample
  pub rolling_index : ℕ
  pub rolling_count : ℕ
  pub last_continuity_counter : ℕ → ℕ → ℕ
  pub has_continuity_counter : ℕ → ℕ → Bool

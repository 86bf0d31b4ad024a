-- ===== src/Stats/Health.antt =====
-- src/report_stats.c, the health that is computed from the last minute.
use two_stream_recovery.Base.{
  ℕ, not, ◌&&◌, ltb, leb, ◌==◌, if◌then◌else◌, update, add64, sub64, mul64, Option, none, some,
}
use two_stream_recovery.Stats.{
  Stats, Sample, StreamHealth, offline_ns, health_interval_ns, quiet_seconds,
}
use two_stream_recovery.Stats.Rolling.{oldest_rolling_sample, rolling_sample_ago}

-- A counter now, less its value in the sample if there is one.
abbrev pub delta : Option Sample → (Sample → ℕ) → ℕ → ℕ
delta none field now = now
delta (some sample) field now = sub64 now (field sample)

infixl 64 ◌+64◌
abbrev ◌+64◌ : ℕ → ℕ → ℕ
a +64 b = add64 a b

module _ {D : Type 0} where
  -- `stream_problem_delta`.
  unfoldable pub stream_problem_delta : Stats D → Option Sample → ℕ → ℕ
  stream_problem_delta s sample i =
      let input : ℕ =
        delta sample (λ t. t.sync_errors i) (s.sync_errors i)
        +64 delta sample (λ t. t.transport_errors i) (s.transport_errors i)
        +64 delta sample (λ t. t.continuity_errors i) (s.continuity_errors i)
        +64 delta sample (λ t. t.duplicate_counters i) (s.duplicate_counters i) in
      (if i == 0
        then input
          +64 delta sample (λ t. t.recovered_packets) s.recovered_packets
          +64 delta sample (λ t. t.unrecoverable_loss) s.unrecoverable_loss
          +64 delta sample (λ t. t.primary_delay_insufficient) s.primary_delay_insufficient
          +64 delta sample (λ t. t.recovery_exact_cc_gap) s.recovery_exact_cc_gap
        else input
          +64 delta sample (λ t. t.secondary_loss_events) s.secondary_loss_events
          +64 delta sample (λ t. t.secondary_missing_packets) s.secondary_missing_packets
          +64 delta sample (λ t. t.secondary_missing_anchors) s.secondary_missing_anchors
          +64 delta sample (λ t. t.secondary_packets_too_late) s.secondary_packets_too_late)
      +64 delta sample (λ t. t.stream_disagreements) s.stream_disagreements

  -- `output_problem_delta`.
  unfoldable pub output_problem_delta : Stats D → Option Sample → ℕ
  output_problem_delta s sample =
      delta sample (λ t. t.output_continuity_errors) s.output_continuity_errors
      +64 delta sample (λ t. t.output_duplicate_counters) s.output_duplicate_counters
      +64 delta sample (λ t. t.unrecoverable_loss) s.unrecoverable_loss

-- `health_from_recent`.
unfoldable pub health_from_recent : ℕ → ℕ → ℕ → StreamHealth
health_from_recent packets problems quiet_problems =
    if packets == 0
    then StreamHealth.degraded
    else if problems == 0 && quiet_problems == 0
    then StreamHealth.healthy
    else if leb (mul64 packets 50) (mul64 problems 1000)
    then StreamHealth.untrusted
    else if leb (mul64 packets 10) (mul64 problems 1000)
    then StreamHealth.lossy
    else StreamHealth.degraded

module _ {D : Type 0} where
  -- The health of one stream, as the loop of `update_stream_health` computes it.
  unfoldable pub health_of_stream : Stats D → Option Sample → Option Sample → ℕ → ℕ → StreamHealth
  unfolding stream_problem_delta health_from_recent
  health_of_stream s window quiet now i =
      if not (now == 0)
        && not (s.last_packet_ns i == 0)
        && leb offline_ns (sub64 now (s.last_packet_ns i))
      then StreamHealth.offline
      else health_from_recent (delta window (λ t. t.packets_received i) (s.packets_received i))
          (stream_problem_delta s window i) (stream_problem_delta s quiet i)

  -- `update_stream_health`, with its reading of the clock.
  unfoldable pub update_stream_health : Stats D → ℕ → Stats D
  unfolding health_of_stream output_problem_delta
  update_stream_health s now =
      let window = oldest_rolling_sample s in
      let quiet = rolling_sample_ago s quiet_seconds in
      if not (now == 0)
        && not (s.last_health_update_ns == 0)
        && ltb (sub64 now s.last_health_update_ns) health_interval_ns
      then s
      else record s {
        last_health_update_ns = now;
        stream_health =
            update (update s.stream_health 0 (health_of_stream s window quiet now 0)) 1
              (health_of_stream s window quiet now 1);
        output_health =
            health_from_recent (delta window (λ t. t.output_packets) s.output_packets)
              (output_problem_delta s window) (output_problem_delta s quiet);
      }

-- ===== src/Stats/Latency.antt =====
-- src/report_stats.c: the latency between the streams, smoothed in doubles.
use two_stream_recovery.Base.{ℕ, pos, ◌&&◌, ◌||◌, ltb, ◌==◌, if◌then◌else◌, add64, sub64}
use two_stream_recovery.Stats.{Stats}
use two_stream_recovery.Stats.Double.{Double}

module _ {D : Type 0} (F : Double D) where
  open F use {of_int, literal, add, sub, mul, neg, lt}

  abbrev zero_d : D
  zero_d = literal 0 1

  -- `(a * 0.875) + (b * 0.125)`.
  abbrev pub smooth : D → D → D
  smooth a b = add (mul a (literal 875 1000)) (mul b (literal 125 1000))

  -- `report_stats_observe_latency_sample`: the minimum and maximum first, then the averages.
  unfoldable pub observe_latency_sample : Stats D → D → Stats D
  observe_latency_sample s sample =
      let n : ℕ = s.observed_secondary_latency_samples in
      let least =
        if n == 0 || lt sample s.observed_secondary_latency_min_ns
        then sample
        else s.observed_secondary_latency_min_ns in
      let most =
        if lt s.observed_secondary_latency_max_ns sample
        then sample
        else s.observed_secondary_latency_max_ns in
      let avg = s.observed_secondary_latency_avg_ns in
      let diff = if lt avg sample then sub sample avg else sub avg sample in
      let first = add64 n 1 == 1 in
      record s {
        observed_secondary_latency_min_ns = least;
        observed_secondary_latency_max_ns = most;
        observed_secondary_latency_samples = add64 n 1;
        observed_secondary_latency_avg_ns = if first then sample else smooth avg sample;
        observed_secondary_latency_jitter_ns =
            if first then zero_d else smooth s.observed_secondary_latency_jitter_ns diff;
      }

  -- `report_stats_observe_pcr_delay`.
  unfoldable pub observe_pcr_delay : Stats D → D → Stats D
  unfolding observe_latency_sample
  observe_pcr_delay s sample =
      let n : ℕ = add64 s.pcr_delay_samples 1 in
      observe_latency_sample
        (record s {
          pcr_delay_samples = n;
          pcr_delay_ns = if n == 1 then sample else smooth s.pcr_delay_ns sample;
        })
        (if lt sample zero_d then neg sample else sample)

  -- `report_stats_observe_latency`.
  unfoldable pub observe_latency : Stats D → ℕ → ℕ → ℕ → Stats D
  unfolding observe_latency_sample
  observe_latency s primary_arrival secondary_arrival max_latency =
      let sample =
        if ltb secondary_arrival primary_arrival
        then zero_d
        else of_int (pos (sub64 secondary_arrival primary_arrival)) in
      let s' = observe_latency_sample s sample in
      if ltb 0 max_latency && lt (of_int (pos max_latency)) sample
      then record s' { secondary_packets_too_late = add64 s'.secondary_packets_too_late 1 }
      else s'

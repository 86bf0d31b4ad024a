-- ===== src/Engine/Init.antt =====
-- src/recovery_engine.c, the configuration and the start of the engine.
pub mod Limits
use two_stream_recovery.Base.{
  ℕ, ◌+◌, ◌*◌, ◌/◌, pos, Bool, true, false, ltb, if◌then◌else◌, add64, mul64, Option, none, some,
}
use two_stream_recovery.Stats.{Stats}
use two_stream_recovery.Stats.Double.{Double}
use two_stream_recovery.Engine.State.{
  Engine, Env, Config, PacketRecord, PacketHistory, DelayQueue, PcrPidModel, Status, ok, error,
}
use two_stream_recovery.Engine.History
use two_stream_recovery.Engine.Queue

-- `recovery_engine_default_config`.
abbrev pub default_config : Config
default_config = record {
  primary_delay_ns = 2_500_000_000;
  max_secondary_latency_ns = 5_000_000_000;
  alignment_window_ns = 6_000_000_000;
  history_ms = 10_000;
  primary_outage_ns = 50_000_000;
  primary_return_ns = 120_000_000_000;
  min_alignment_confidence = 40;
  max_content_burst_packets = 15;
}

-- `history_capacity_from_config`.
unfoldable pub history_capacity : Config → ℕ
history_capacity c =
    let wanted : ℕ =
      if ltb 0 c.history_ms then add64 (mul64 c.history_ms 14000) 999 / 1000 else 65536 in
    let least : ℕ = if ltb wanted 8192 then 8192 else wanted in
    if ltb 1048576 least then 1048576 else least

-- The configuration that the engine keeps: both limits are cut.
unfoldable pub limited : Config → Config
limited c = record c {
  max_content_burst_packets =
      if ltb 255 c.max_content_burst_packets then 255 else c.max_content_burst_packets;
  min_alignment_confidence =
      if ltb 100 c.min_alignment_confidence then 100 else c.min_alignment_confidence;
}

abbrev pub zero_record : PacketRecord
zero_record = record {
  source_stream_id = 0;
  stream_index = 0;
  arrival_time = 0;
  arrival_time_ns = 0;
  pid = 0;
  continuity_counter = 0;
  has_payload = false;
  has_pcr = false;
  is_null = false;
  transport_error = false;
  discontinuity_indicator = false;
  stream_continuity_errors = 0;
  stream_duplicate_counters = 0;
  pcr_value = 0;
  hash = 0;
  packet = λ _. 0;
}

module _ {D : Type 0} (F : Double D) where
  open F use {literal}

  zero_model : PcrPidModel D
  zero_model = record {
    active = false;
    pid = 0;
    last_pcr = 0;
    last_stream_index = 0;
    last_arrival_time_ns = 0;
    bitrate_bps = literal 0 1;
    packets_per_second = literal 0 1;
    jitter_ns = literal 0 1;
    confidence = 0;
  }

  -- `recovery_engine_init_with_config`, where no allocation fails. (One that fails makes it free what
  -- it has and return -1.)
  unfoldable pub init_with_config : Env → Stats D → Config → Engine D
  unfolding zero_model limited History.init Queue.init
  init_with_config env stats c =
      let capacity : ℕ = history_capacity c in
      let config = limited c in
      record {
        env = env;
        stats = record stats { active_output_stream_id = 0 };
        config = config;
        history = λ _. History.init (λ _. zero_record) capacity;
        primary_queue = Queue.init (λ _. zero_record) capacity config.primary_delay_ns;
        secondary_queue = Queue.init (λ _. zero_record) capacity config.primary_delay_ns;
        pcr_model = λ _. record {
          pid_models = λ _. zero_model;
          estimated_delay_ns = literal 0 1;
          confidence = 0;
        };
        next_stream_index = λ _. 0;
        last_input_arrival_ns = λ _. 0;
        last_output_stream_index = λ _. 0;
        has_output_stream_index = λ _. false;
        active_output_stream_id = 0;
        primary_return_start_ns = 0;
        primary_switchback_guard = false;
        primary_switchback_guard_informative = 0;
        alignment = record {
          has_alignment = false;
          offset_packets = pos 0;
          confidence = 0;
          consecutive_matches = 0;
          consecutive_misses = 0;
        };
        last_primary_anchor = record { valid = false; primary_index = 0; secondary_index = 0 };
        primary_gap = record {
          valid = false;
          arrival_time_ns = 0;
          last_recovered_secondary_arrival_ns = 0;
          recovered_stream_packets = 0;
          secondary_recovery_index = 0;
          continuity_errors = 0;
          duplicate_counters = 0;
        };
        input_pid_state = λ _ _. record { valid = false; continuity_counter = 0 };
        output_pid_state = λ _. record {
          valid = false;
          continuity_counter = 0;
          last_arrival_time_ns = 0;
          last_recovered_secondary_arrival_ns = 0;
          last_primary_continuity_errors = 0;
        };
        decision_candidate_count = 0;
        decision_candidates_truncated = false;
      }

  -- `recovery_engine_init`.
  unfoldable pub init : Env → Stats D → Engine D
  unfolding init_with_config
  init env stats = init_with_config env stats default_config

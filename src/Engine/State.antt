-- ===== src/Engine/State.antt =====
-- src/recovery_engine.h: the state of the engine. `engine->stats` and `engine->sink` are held in the
-- state itself, so each operation takes the engine and gives the engine back.
use two_stream_recovery.Base.{ℕ, ℤ, Bool, List, Option}
use two_stream_recovery.Ts.{Packet}
use two_stream_recovery.Stats.{Stats}

-- `recovery_engine_config_t`.
pub record Config : Type 0 where
  pub primary_delay_ns : ℕ
  pub max_secondary_latency_ns : ℕ
  pub alignment_window_ns : ℕ
  pub history_ms : ℕ
  pub primary_outage_ns : ℕ
  pub primary_return_ns : ℕ
  pub min_alignment_confidence : ℕ
  pub max_content_burst_packets : ℕ

-- `alignment_state_t`.
pub record AlignmentState : Type 0 where
  pub has_alignment : Bool
  pub offset_packets : ℤ
  pub confidence : ℕ
  pub consecutive_matches : ℕ
  pub consecutive_misses : ℕ

-- `primary_anchor_t`.
pub record PrimaryAnchor : Type 0 where
  pub valid : Bool
  pub primary_index : ℕ
  pub secondary_index : ℕ

-- `primary_gap_state_t`.
pub record PrimaryGapState : Type 0 where
  pub valid : Bool
  pub arrival_time_ns : ℕ
  pub last_recovered_secondary_arrival_ns : ℕ
  pub recovered_stream_packets : ℕ
  pub secondary_recovery_index : ℕ
  pub continuity_errors : ℕ
  pub duplicate_counters : ℕ

-- `output_pid_state_t`.
pub record OutputPidState : Type 0 where
  pub valid : Bool
  pub continuity_counter : ℕ
  pub last_arrival_time_ns : ℕ
  pub last_recovered_secondary_arrival_ns : ℕ
  pub last_primary_continuity_errors : ℕ

-- `input_pid_state_t`.
pub record InputPidState : Type 0 where
  pub valid : Bool
  pub continuity_counter : ℕ

-- `packet_record_t`; `arrival_time` is the reading of `gettimeofday`.
pub record PacketRecord : Type 0 where
  pub source_stream_id : ℕ
  pub stream_index : ℕ
  pub arrival_time : ℕ
  pub arrival_time_ns : ℕ
  pub pid : ℕ
  pub continuity_counter : ℕ
  pub has_payload : Bool
  pub has_pcr : Bool
  pub is_null : Bool
  pub transport_error : Bool
  pub discontinuity_indicator : Bool
  pub stream_continuity_errors : ℕ
  pub stream_duplicate_counters : ℕ
  pub pcr_value : ℕ
  pub hash : ℕ
  pub packet : Packet

-- `packet_history_t`; a pointer to a record of the array is its index.
pub record PacketHistory : Type 0 where
  pub records : ℕ → PacketRecord
  pub capacity : ℕ
  pub start : ℕ
  pub count : ℕ

-- `primary_delay_queue_t`.
pub record DelayQueue : Type 0 where
  pub records : ℕ → PacketRecord
  pub capacity : ℕ
  pub start : ℕ
  pub count : ℕ
  pub delay_ns : ℕ

-- `pcr_pid_model_t`.
pub record PcrPidModel (D : Type 0) : Type 0 where
  pub active : Bool
  pub pid : ℕ
  pub last_pcr : ℕ
  pub last_stream_index : ℕ
  pub last_arrival_time_ns : ℕ
  pub bitrate_bps : D
  pub packets_per_second : D
  pub jitter_ns : D
  pub confidence : ℕ

-- `pcr_timing_model_t`.
pub record PcrTimingModel (D : Type 0) : Type 0 where
  pub pid_models : ℕ → PcrPidModel D
  pub estimated_delay_ns : D
  pub confidence : ℕ

-- What lies outside the program. The `n`-th read of a clock gives `clock n` (`clock_gettime`; `none`
-- is a failure) or `wall n` (`time`, `gettimeofday`); the sink answers the `n`-th packet offered to
-- it by `accepts n`, and `sent` lists the packets that it took, in order.
pub record Env : Type 0 where
  pub clock : ℕ → Option (ℕ × ℕ)
  pub wall : ℕ → ℕ
  pub reads : ℕ
  pub accepts : ℕ → Bool
  pub offers : ℕ
  pub sent : List Packet

-- `recovery_engine_t`; an array of one cell for each stream is a function from the stream.
pub record Engine (D : Type 0) : Type 0 where
  pub env : Env
  pub stats : Stats D
  pub config : Config
  pub history : ℕ → PacketHistory
  pub primary_queue : DelayQueue
  pub secondary_queue : DelayQueue
  pub pcr_model : ℕ → PcrTimingModel D
  pub next_stream_index : ℕ → ℕ
  pub last_input_arrival_ns : ℕ → ℕ
  pub last_output_stream_index : ℕ → ℕ
  pub has_output_stream_index : ℕ → Bool
  pub active_output_stream_id : ℕ
  pub primary_return_start_ns : ℕ
  pub primary_switchback_guard : Bool
  pub primary_switchback_guard_informative : ℕ
  pub alignment : AlignmentState
  pub last_primary_anchor : PrimaryAnchor
  pub primary_gap : PrimaryGapState
  pub input_pid_state : ℕ → ℕ → InputPidState
  pub output_pid_state : ℕ → OutputPidState
  pub decision_candidate_count : ℕ
  pub decision_candidates_truncated : Bool

-- The return code of an operation: 0 or -1.
pub data Status : Type 0 where
  ok error : Status

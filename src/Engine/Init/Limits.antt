-- ===== src/Engine/Init/Limits.antt =====
-- src/recovery_engine.c, `recovery_engine_init_with_config`: the limits that it sets.
use two_stream_recovery.Base.{◌≡◌, ℕ, arith, ◌≤◌}
use two_stream_recovery.Engine.Init.{
  Stats, Env, limited, init_with_config, Double, history_capacity,
}
use two_stream_recovery.Engine.State.{Config}
use two_stream_recovery.Engine.History.Inv
use two_stream_recovery.Engine.Queue.Refine

-- Whatever history the configuration asks for, the capacity lies between 8192 and 1048576 records.
pub history_capacity_bounds :
    (c : Config) → (8192 ≤ history_capacity c) × (history_capacity c ≤ 1048576)
unfolding history_capacity
history_capacity_bounds c = ground arith

module _ {D : Type 0} (F : Double D) where
  -- Whatever the configuration, the engine starts with the two histories and the two delay queues
  -- valid and empty, with room for 8192 to 1048576 records each, a burst limit of at most 255 and a
  -- confidence limit of at most 100.
  pub init_with_config-IsValid :
      (env : Env) (stats : Stats D) (c : Config) (i : ℕ)
      → Inv.IsValid ((init_with_config F env stats c).history i)
        × Refine.IsValid (init_with_config F env stats c).primary_queue
        × Refine.IsValid (init_with_config F env stats c).secondary_queue
        × (((init_with_config F env stats c).history i).count ≡ 0)
        × ((init_with_config F env stats c).primary_queue.count ≡ 0)
        × (8192 ≤ ((init_with_config F env stats c).history i).capacity)
        × (((init_with_config F env stats c).history i).capacity ≤ 1048576)
        × ((init_with_config F env stats c).config.max_content_burst_packets ≤ 255)
        × ((init_with_config F env stats c).config.min_alignment_confidence ≤ 100)
  unfolding init_with_config limited two_stream_recovery.Engine.History.init
      two_stream_recovery.Engine.Queue.init
  init_with_config-IsValid env stats c i = ground (arith, history_capacity_bounds c)

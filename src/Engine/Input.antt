-- ===== src/Engine/Input.antt =====
-- src/recovery_engine.c, `observe_input_path_gap`: the losses on the secondary input.
use two_stream_recovery.Base.{
  ℕ, ◌+◌, ◌%◌, Bool, true, not, ◌&&◌, ◌||◌, leb, ◌==◌, if◌then◌else◌, add64, Option, none, some,
}
use two_stream_recovery.Stats.Observe.{update2}
use two_stream_recovery.Engine.State.{Engine, PacketRecord, InputPidState}
use two_stream_recovery.Engine.Match.{infer_missing}

-- Whether a record continues its input stream, and how many packets it shows to be missing.
unfoldable pub input_gap : InputPidState → PacketRecord → Bool × Option ℕ
unfolding infer_missing
input_gap state r =
    let cc : ℕ = r.continuity_counter in
    if r.has_payload
    then (
      not (cc == state.continuity_counter) && not (cc == (state.continuity_counter + 1) % 16),
      infer_missing state.continuity_counter r,
    )
    else (not (cc == state.continuity_counter), none)

abbrev pub count_or : Option ℕ → ℕ → ℕ
count_or none n = n
count_or (some m) n = m

module _ {D : Type 0} where
  -- `observe_input_path_gap`.
  unfoldable pub observe_input_path_gap : Engine D → ℕ → PacketRecord → Engine D
  unfolding input_gap
  observe_input_path_gap e stream_id r =
      let state = e.input_pid_state stream_id r.pid in
      let (gap, missing) = input_gap state r in
      let s =
        if state.valid && gap && stream_id == 1
        then record e.stats {
          secondary_loss_events = add64 e.stats.secondary_loss_events 1;
          secondary_missing_packets = add64 e.stats.secondary_missing_packets (count_or missing 1);
        }
        else e.stats in
      if r.is_null || r.transport_error || r.discontinuity_indicator || leb 8192 r.pid
      then e
      else record e {
        stats = s;
        input_pid_state =
            update2 e.input_pid_state stream_id r.pid
              (record { valid = true; continuity_counter = r.continuity_counter });
      }

-- ===== src/Engine/Push.antt =====
-- src/recovery_engine.c, `recovery_engine_push_packet`: a packet that was received enters the history
-- and the delay queue of its stream.
pub mod Enqueue
pub mod Observed
pub mod WellFormed
use two_stream_recovery.Base.{
  ℕ, ℤ, pos, pos_part, neg_part, leb_ℤ, ◌+◌, Bool, true, false, not, ◌&&◌, ltb, ◌==◌, if◌then◌else◌,
  update, add64, sub64, mul64, Option, none, some,
}
use two_stream_recovery.Ts.{Packet, TsPacketInfo}
use two_stream_recovery.Stats.{Stats}
use two_stream_recovery.Stats.Double.{Double}
use two_stream_recovery.Engine.State.{
  Engine, PacketRecord, PacketHistory, DelayQueue, Status, ok, error,
}
use two_stream_recovery.Engine.History
use two_stream_recovery.Engine.History.{prune_older_than, write}
use two_stream_recovery.Engine.Queue
use two_stream_recovery.Engine.Match.{hash_packet}
use two_stream_recovery.Engine.Output.{read_clock, read_wall}
use two_stream_recovery.Engine.Input.{observe_input_path_gap}
use two_stream_recovery.Engine.Alignment.{update_alignment}
use two_stream_recovery.Engine.Pcr.{update_pcr_timing}
use two_stream_recovery.Engine.Drain.Loop.{drain}

abbrev popped_then : Status × DelayQueue → DelayQueue → PacketRecord → Status × DelayQueue
popped_then (ok, q') q r = (ok, q')
popped_then (error, q') q r = Queue.push (Queue.pop q) r

abbrev overflows : Status → ℕ → ℕ
overflows ok n = n
overflows error n = add64 n 1

-- `delay_queue_push`; where the queue is full, its oldest packet makes room.
unfoldable pub force_push : DelayQueue → PacketRecord → Status × DelayQueue
force_push q r = popped_then (Queue.push q r) q r

module _ {D : Type 0} where
  -- The record that is filled in the history.
  unfoldable pub record_of : Stats D → ℕ → ℕ → ℕ → ℕ → Packet → TsPacketInfo → PacketRecord
  record_of stats stream_id index arrival_time arrival_time_ns packet info = record {
    source_stream_id = stream_id;
    stream_index = index;
    arrival_time = arrival_time;
    arrival_time_ns = arrival_time_ns;
    pid = info.pid;
    continuity_counter = info.continuity_counter;
    has_payload = info.has_payload;
    has_pcr = info.has_pcr;
    is_null = info.is_null;
    transport_error = info.transport_error;
    discontinuity_indicator = info.discontinuity_indicator;
    stream_continuity_errors = stats.continuity_errors stream_id;
    stream_duplicate_counters = stats.duplicate_counters stream_id;
    pcr_value = if info.has_pcr then info.pcr_base else 0;
    hash = hash_packet packet;
    packet = packet;
  }

  -- `history_retention_ns`: what is older leaves the history.
  unfoldable pub prune : Engine D → PacketHistory → PacketRecord → PacketHistory
  prune e h r =
      let retention : ℕ = mul64 e.config.history_ms 1_000_000 in
      if ltb 0 retention && ltb retention r.arrival_time_ns
      then prune_older_than h (sub64 r.arrival_time_ns retention)
      else h

  -- The history, the counters and the clocks, up to the observations.
  unfoldable pub receive : Engine D → ℕ → Packet → TsPacketInfo → PacketRecord × Engine D
  unfolding record_of prune
  receive e0 stream_id packet info =
      let (slot, h) = History.push (e0.history stream_id) in
      let index : ℕ = e0.next_stream_index stream_id in
      let (wall, e1) = read_wall e0 in
      let (now, e) = read_clock e1 in
      let r = record_of e.stats stream_id index wall now packet info in
      (
        r,
        record e {
          history = update e.history stream_id (prune e (write h slot r) r);
          next_stream_index = update e.next_stream_index stream_id (add64 index 1);
          last_input_arrival_ns = update e.last_input_arrival_ns stream_id now;
          decision_candidate_count = 0;
          decision_candidates_truncated = false;
        },
      )

  -- The record enters the queue of its stream; an overflow of the primary queue is counted.
  unfoldable pub enqueue : Engine D → ℕ → PacketRecord → Status × Engine D
  unfolding force_push
  enqueue e stream_id r =
      let (status, q) = force_push e.primary_queue r in
      let (status', q') = force_push e.secondary_queue r in
      if stream_id == 0
      then (
        status,
        record e {
          primary_queue = q;
          stats = record e.stats {
            primary_delay_overflows =
                overflows (Queue.push e.primary_queue r).0 e.stats.primary_delay_overflows;
          };
        },
      )
      else (status', record e { secondary_queue = q' })

abbrev pub then_drain : {D : Type 0} → Status × Engine D → Status × Engine D
then_drain (error, e) = (error, e)
then_drain (ok, e) = drain e false

module _ {D : Type 0} (F : Double D) where
  -- `update_pcr_timing`, `observe_input_path_gap` and `update_alignment`.
  unfoldable pub observe_record : Engine D → ℕ → PacketRecord → Engine D
  observe_record e stream_id r =
      update_alignment F (observe_input_path_gap (update_pcr_timing F e r) stream_id r) stream_id r

  -- `recovery_engine_push_packet`.
  unfoldable pub push_packet : Engine D → ℤ → Packet → TsPacketInfo → Status × Engine D
  unfolding receive observe_record enqueue
  push_packet e stream_id packet info =
      let i : ℕ = pos_part stream_id in
      let (r, e') = receive e i packet info in
      if not (leb_ℤ (pos 0) stream_id && leb_ℤ stream_id (pos 1))
      then (error, e)
      else then_drain (enqueue (observe_record e' i r) i r)

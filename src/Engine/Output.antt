-- ===== src/Engine/Output.antt =====
-- src/recovery_engine.c, the effects of a decision: a packet goes to the sink and is counted, a
-- refusal is counted, the active stream changes. Log lines (`recovery_decision_log`) change no state
-- and are left out.
pub mod Clean
use two_stream_recovery.Base.{
  ℕ, ◌+◌, ◌%◌, Bool, true, false, not, ◌&&◌, ◌||◌, ltb, leb, ◌==◌, if◌then◌else◌, update, add64,
  Option, none, some, List, [], ◌∷◌, ◌++◌,
}
use two_stream_recovery.Ts.{Packet}
use two_stream_recovery.Stats.{Stats, RejectReason}
use two_stream_recovery.Stats.Init.{now_ns}
use two_stream_recovery.Stats.Observe.{
  bump, update2, observe_output_datagram, observe_recovery, reject_recovery,
}
use two_stream_recovery.Engine.State.{
  Engine, Env, PacketRecord, OutputPidState, InputPidState, Status, ok, error,
}
use two_stream_recovery.Engine.Match.{infer_missing, output_state_after}

-- The strings that say why a gap was not recovered.
pub data Reason : Type 0 where
  burst_too_large low_alignment before_anchor after_anchor multiple_candidates : Reason
  missing_candidate null_candidate secondary_tei secondary_discontinuity wrong_pid : Reason
  wrong_counter secondary_wrong_counter after_anchor_wrong_counter not_content_gap : Reason
  primary_discontinuity primary_not_content no_after_anchor not_null_position_gap : Reason
  null_burst_too_large stale_anchor_prefix not_mixed_position_gap mixed_burst_too_large : Reason
  candidate_counter_contradiction too_many_after_anchors multiple_valid_after_anchors : Reason
  no_valid_after_anchor missing_anchor_or_candidate : Reason

-- `strncmp(reason, "null_", 5) == 0`.
abbrev pub starts_with_null : Reason → Bool
starts_with_null Reason.null_candidate = true
starts_with_null Reason.null_burst_too_large = true
starts_with_null _ = false

-- `RECOVERY_DECISION_NONE`, `_INSERTED`, `_REJECTED`, and -1.
pub data Decision : Type 0 where
  undecided inserted rejected failed : Decision

module _ {D : Type 0} where
  -- `report_stats_now_ns()` and `time(NULL)`, as the engine calls them.
  unfoldable pub read_clock : Engine D → ℕ × Engine D
  unfolding now_ns
  read_clock e = (
    now_ns (e.env.clock e.env.reads),
    record e { env = record e.env { reads = e.env.reads + 1 } },
  )

  unfoldable pub read_wall : Engine D → ℕ × Engine D
  read_wall e =
      (e.env.wall e.env.reads, record e { env = record e.env { reads = e.env.reads + 1 } })

  -- `previous_output_cc_for_record`; `none` is false.
  unfoldable pub previous_output_cc : Engine D → PacketRecord → Option ℕ
  previous_output_cc e r =
      let state = e.output_pid_state r.pid in
      if r.is_null || leb 8192 r.pid
      then none
      else if not state.valid
      then none
      else some state.continuity_counter

  -- `observe_unrecoverable_primary_gap`; `missing` is `none` where the count is unknown.
  unfoldable pub observe_unrecoverable : Engine D → PacketRecord → Option ℕ → Reason → Engine D
  observe_unrecoverable e primary none reason = e
  observe_unrecoverable e primary (some missing) reason =
      if missing == 0
        || primary.is_null
        || primary.transport_error
        || primary.discontinuity_indicator
      then e
      else if starts_with_null reason
      then e
      else record e {
        stats = record e.stats { unrecoverable_loss = add64 e.stats.unrecoverable_loss missing };
      }

  -- `recovery_reject_log`.
  unfoldable pub reject : Engine D → PacketRecord → Option ℕ → RejectReason → Reason → Engine D
  unfolding observe_unrecoverable reject_recovery
  reject e primary missing reject_reason reason =
      observe_unrecoverable (record e { stats = reject_recovery e.stats reject_reason }) primary
        missing reason

module _ {D : Type 0} where
  -- The counting in `observe_output_record`, for a record whose PID has been output before.
  unfoldable pub count_discontinuity : Stats D → OutputPidState → PacketRecord → Stats D
  count_discontinuity s state r =
      let cc : ℕ = r.continuity_counter in
      let jump = record s { output_continuity_errors = add64 s.output_continuity_errors 1 } in
      if not (state.valid && not r.transport_error && not r.discontinuity_indicator)
      then s
      else if r.has_payload
      then if cc == state.continuity_counter
        then record s { output_duplicate_counters = add64 s.output_duplicate_counters 1 }
        else if not (cc == (state.continuity_counter + 1) % 16)
        then jump
        else s
      else if not (cc == state.continuity_counter)
      then jump
      else s

  -- `observe_output_record`.
  unfoldable pub observe_output : Engine D → PacketRecord → Engine D
  unfolding count_discontinuity
  observe_output e r =
      let state = e.output_pid_state r.pid in
      if r.is_null then e else record e {
        stats = count_discontinuity e.stats state r;
        output_pid_state = update e.output_pid_state r.pid (output_state_after state r);
      }

  -- `packet_sink_send_ts_packet`: the sink's answer, and the offer recorded.
  unfoldable pub send_ts_packet : Engine D → Packet → Bool × Engine D
  send_ts_packet e p =
      let taken = e.env.accepts e.env.offers in
      (
        taken,
        record e {
          env = record e.env {
            offers = e.env.offers + 1;
            sent = if taken then e.env.sent ++ (p ∷ []) else e.env.sent;
          };
        },
      )

  -- The statistics and indices that `output_record` updates once the sink has taken the packet.
  unfoldable pub count_output : Engine D → PacketRecord → Engine D
  unfolding observe_output_datagram
  count_output e r =
      let n : ℕ = add64 e.stats.output_packets 1 in
      let s = record e.stats { output_packets = n } in
      let known = ltb r.source_stream_id 2 in
      record e {
        stats = if n % 7 == 0 then observe_output_datagram s false else s;
        has_output_stream_index =
            if known
            then update e.has_output_stream_index r.source_stream_id true
            else e.has_output_stream_index;
        last_output_stream_index =
            if known
            then update e.last_output_stream_index r.source_stream_id r.stream_index
            else e.last_output_stream_index;
      }

  -- `output_record`.
  unfoldable pub output_record : Engine D → PacketRecord → Status × Engine D
  output_record e r =
      let (taken, e') = send_ts_packet e r.packet in
      if taken then (ok, observe_output (count_output e' r) r) else (error, e')

  -- `report_stats_observe_recovery(engine->stats, is_null)`.
  unfoldable pub observe_recovered : Engine D → Bool → Engine D
  unfolding read_wall observe_recovery
  observe_recovered e is_null =
      let (now, e') = read_wall e in record e' { stats = observe_recovery e'.stats is_null now }

  -- `set_active_output_stream`.
  unfoldable pub set_active_output : Engine D → ℕ → Engine D
  set_active_output e stream_id =
      if ltb 1 stream_id || e.active_output_stream_id == stream_id then e else record e {
        active_output_stream_id = stream_id;
        stats = record e.stats {
          active_output_stream_id = stream_id;
          source_switches = bump e.stats.source_switches stream_id;
        };
      }

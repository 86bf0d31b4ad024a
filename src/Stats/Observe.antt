-- ===== src/Stats/Observe.antt =====
-- src/report_stats.c, the functions that count events. A reading of a clock is an argument: the
-- monotonic clock in nanoseconds, and `time(NULL)` in seconds. Counters of 64 bits wrap.
use two_stream_recovery.Base.{
  ℕ, ◌+◌, ◌%◌, ℤ, pos, Bool, true, false, not, ◌&&◌, ◌||◌, leb, ltb_ℤ, leb_ℤ, pos_part, ◌==◌,
  if◌then◌else◌, update, add64, sub64,
}
use two_stream_recovery.Ts.{TsPacketInfo, ts_packet_size}
use two_stream_recovery.Stats.{Stats, RejectReason, reject_index, offline_ns}

abbrev pub bump : (ℕ → ℕ) → ℕ → ℕ → ℕ
bump cells i = update cells i (add64 (cells i) 1)

-- `a[i][j]++` and `a[i][j] = v`.
abbrev pub update2 {ℓ} : {A : Type ℓ} → (ℕ → ℕ → A) → ℕ → ℕ → A → ℕ → ℕ → A
update2 cells i j v = update cells i (update (cells i) j v)

-- `stream_id < 0 || stream_id >= REPORT_STATS_STREAMS`, negated.
abbrev pub is_stream : ℤ → Bool
is_stream i = leb_ℤ (pos 0) i && ltb_ℤ i (pos 2)

module _ {D : Type 0} where
  -- `report_stats_observe_datagram`.
  unfoldable pub observe_datagram : Stats D → ℤ → ℕ → Stats D
  observe_datagram s stream_id bytes =
      let i : ℕ = pos_part stream_id in
      if not (is_stream stream_id)
      then s
      else let s' : Stats D = record s { input_datagrams = bump s.input_datagrams i } in
        if bytes == 0 || not (bytes % ts_packet_size == 0)
        then record s' { partial_datagrams = bump s'.partial_datagrams i }
        else s'

  -- `reset_stream_continuity`.
  unfoldable pub reset_stream_continuity : Stats D → ℕ → Stats D
  reset_stream_continuity s i = record s {
    has_continuity_counter = update s.has_continuity_counter i (λ _. false);
  }

  -- The counters of `report_stats_observe_packet` that do not depend on the previous packet.
  unfoldable pub count_packet : Stats D → ℕ → TsPacketInfo → ℕ → Stats D
  count_packet s i info now = record s {
    packets_received = bump s.packets_received i;
    last_packet_ns = update s.last_packet_ns i now;
    per_pid_packets = update2 s.per_pid_packets i info.pid (add64 (s.per_pid_packets i info.pid) 1);
    transport_errors =
        if info.transport_error then bump s.transport_errors i else s.transport_errors;
    null_packets = if info.is_null then bump s.null_packets i else s.null_packets;
    pcr_packets = if info.has_pcr then bump s.pcr_packets i else s.pcr_packets;
  }

  -- `last_continuity_counter[i][pid] = cc; has_continuity_counter[i][pid] = true;`
  unfoldable pub remember_counter : Stats D → ℕ → TsPacketInfo → Stats D
  remember_counter s i info = record s {
    last_continuity_counter = update2 s.last_continuity_counter i info.pid info.continuity_counter;
    has_continuity_counter = update2 s.has_continuity_counter i info.pid true;
  }

  -- The comparison of a packet's counter with the last one of its PID.
  unfoldable pub check_counter : Stats D → ℕ → TsPacketInfo → Stats D
  check_counter s i info =
      let last : ℕ = s.last_continuity_counter i info.pid in
      let cc : ℕ = info.continuity_counter in
      if info.has_payload
      then if cc == last
        then record s { duplicate_counters = bump s.duplicate_counters i }
        else if not (cc == (last + 1) % 16)
        then record s { continuity_errors = bump s.continuity_errors i }
        else s
      else if not (cc == last)
      then record s { continuity_errors = bump s.continuity_errors i }
      else s

  -- `report_stats_observe_packet`.
  unfoldable pub observe_packet : Stats D → ℤ → TsPacketInfo → ℕ → Stats D
  unfolding reset_stream_continuity count_packet remember_counter check_counter
  observe_packet s stream_id info now =
      let i : ℕ = pos_part stream_id in
      let silent =
        not (now == 0)
        && not (s.last_packet_ns i == 0)
        && leb offline_ns (sub64 now (s.last_packet_ns i)) in
      let s1 = count_packet (if silent then reset_stream_continuity s i else s) i info now in
      if not (is_stream stream_id)
      then s
      else if info.is_null || info.transport_error || info.discontinuity_indicator
      then remember_counter s1 i info
      else if not (s1.has_continuity_counter i info.pid)
      then remember_counter s1 i info
      else let s2 = check_counter s1 i info in
        record s2 {
          last_continuity_counter =
              update2 s2.last_continuity_counter i info.pid info.continuity_counter;
        }

  -- `report_stats_observe_output_datagram`.
  unfoldable pub observe_output_datagram : Stats D → Bool → Stats D
  observe_output_datagram s short_flush = record s {
    output_datagrams = add64 s.output_datagrams 1;
    output_short_flushes =
        if short_flush then add64 s.output_short_flushes 1 else s.output_short_flushes;
  }

  -- `report_stats_observe_recovery`, with the value of `time(NULL)`.
  unfoldable pub observe_recovery : Stats D → Bool → ℕ → Stats D
  observe_recovery s is_null_packet now = record s {
    recovered_packets = add64 s.recovered_packets 1;
    recovered_null_packets =
        if is_null_packet then add64 s.recovered_null_packets 1 else s.recovered_null_packets;
    recovered_content_packets =
        if is_null_packet then s.recovered_content_packets else add64 s.recovered_content_packets 1;
    last_recovery_event_time = if now == 0 then 1 else now;
  }

  -- `report_stats_reject_recovery`; every enumerator but the count is a reason.
  unfoldable pub reject_recovery : Stats D → RejectReason → Stats D
  reject_recovery s reason = record s {
    recovery_rejects = bump s.recovery_rejects (reject_index reason);
  }

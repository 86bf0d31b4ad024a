-- ===== src/Datagram/Partial.antt =====
-- src/main.c, `process_datagram`: a datagram that is shorter than a packet.
use two_stream_recovery.Base.{false, ◌+◌, leb, pos, arith, add64, ◌≡◌, ◌<◌, ℕ}
use two_stream_recovery.Datagram.Rounds.{packet_loop_stop}
use two_stream_recovery.Ts.{ts_packet_size, Packet, TsPacketInfo}
use two_stream_recovery.Stats.Double.{Double}
use two_stream_recovery.Stats.Observe.{observe_datagram}
use two_stream_recovery.Engine.State.{Engine, ok}
use two_stream_recovery.Datagram.{with_stats, count_partial, process_datagram}

module _ {D : Type 0} (F : Double D) (blank : TsPacketInfo) where
  -- A datagram of one to 187 bytes of either stream is processed without an error and sends nothing;
  -- it raises the count of datagrams and that of sync errors by one, and the count of partial
  -- datagrams by two: on receipt, and again for the bytes that are left over.
  pub process_datagram_short :
      (e : Engine D) (i : ℕ) (buffer : Packet) (bytes : ℕ)
      → i < 2
      → 0 < bytes
      → bytes < 188
      → ((process_datagram F blank e i buffer bytes).0 ≡ ok)
        × ((process_datagram F blank e i buffer bytes).1.env ≡ e.env)
        × ((process_datagram F blank e i buffer bytes).1.stats.input_datagrams i
            ≡ add64 (e.stats.input_datagrams i) 1)
        × ((process_datagram F blank e i buffer bytes).1.stats.sync_errors i
            ≡ add64 (e.stats.sync_errors i) 1)
        × ((process_datagram F blank e i buffer bytes).1.stats.partial_datagrams i
            ≡ add64 (add64 (e.stats.partial_datagrams i) 1) 1)
  unfolding process_datagram count_partial observe_datagram
  process_datagram_short e i buffer bytes hi low high =
      let e' = with_stats e λ s. observe_datagram s (pos i) bytes in
      let short : leb (0 + ts_packet_size) bytes ≡ false = ground arith in
      rw (packet_loop_stop F blank bytes e' i buffer bytes 0 short) (ground arith)

-- ===== src/Datagram.antt =====
-- src/main.c, `process_datagram`: a received datagram is cut into packets, and the parser's refusal
-- starts a search for the next run of sync bytes.
pub mod Bounds
pub mod Partial
pub mod Rounds
use two_stream_recovery.Base.{
  ℕ, ℤ, pos, zero, suc, ◌+◌, ◌-◌, ◌*◌, Bool, true, false, not, ◌||◌, ltb, leb, ◌==◌, if◌then◌else◌,
  update, add64, sub64, Option, none, some,
}
use two_stream_recovery.Ts.{Packet, TsPacketInfo, ts_packet_size, ts_sync_byte, parse}
use two_stream_recovery.Stats.{Stats}
use two_stream_recovery.Stats.Init.{now_ns}
use two_stream_recovery.Stats.Double.{Double}
use two_stream_recovery.Stats.Observe.{bump, observe_datagram, observe_packet}
use two_stream_recovery.Engine.State.{Engine, Status, ok, error}
use two_stream_recovery.Engine.Output.{read_clock}
use two_stream_recovery.Engine.Push.{push_packet}

-- The loop of `has_sync_run`, with the rounds that are left.
unfoldable pub sync_run_loop : ℕ → Packet → ℕ → ℕ → ℕ → Bool
sync_run_loop zero buffer bytes offset i = true
sync_run_loop (suc rounds) buffer bytes offset i =
    let at : ℕ = offset + i * ts_packet_size in
    let rest = sync_run_loop rounds buffer bytes offset (i + 1) in
    if leb bytes at || not (buffer at == ts_sync_byte) then false else rest

-- `has_sync_run`.
unfoldable pub has_sync_run : Packet → ℕ → ℕ → Bool
unfolding sync_run_loop
has_sync_run buffer bytes offset = sync_run_loop 4 buffer bytes offset 0

unfoldable pub resync_loop : ℕ → Packet → ℕ → ℕ → Option ℕ
resync_loop zero buffer bytes offset = none
resync_loop (suc rounds) buffer bytes offset =
    let rest = resync_loop rounds buffer bytes (offset + 1) in
    if has_sync_run buffer bytes offset then some offset else rest

-- `find_resync_offset`: the offsets from `start + 1` below `bytes`.
unfoldable pub find_resync_offset : Packet → ℕ → ℕ → Option ℕ
find_resync_offset buffer bytes start = resync_loop (bytes - (start + 1)) buffer bytes (start + 1)

-- `buffer + offset`.
abbrev pub from_offset : Packet → ℕ → Packet
from_offset buffer offset i = buffer (offset + i)

-- The offset of the next packet after one that does not parse.
abbrev pub next_offset : ℕ → Option ℕ → ℕ
next_offset offset none = offset + ts_packet_size
next_offset offset (some o) = o

module _ {D : Type 0} where
  abbrev pub with_stats : Engine D → (Stats D → Stats D) → Engine D
  with_stats e f = record e { stats = f e.stats }

  -- `stats->sync_errors[i]++; stats->malformed_datagrams[i]++;` and the resynchronisation.
  unfoldable pub count_malformed : Engine D → ℕ → Option ℕ → Engine D
  count_malformed e i resync = with_stats e λ s. record s {
    sync_errors = bump s.sync_errors i;
    malformed_datagrams = bump s.malformed_datagrams i;
    resync_events = elim resync [ none ↦ s.resync_events | some o ↦ bump s.resync_events i ];
  }

  -- The bytes that are left over.
  unfoldable pub count_partial : Engine D → ℕ → ℕ → ℕ → Engine D
  count_partial e i offset bytes =
      if offset == bytes
      then e
      else with_stats e λ s. record s {
        sync_errors = bump s.sync_errors i;
        partial_datagrams = bump s.partial_datagrams i;
      }

module _ {D : Type 0} (F : Double D) (blank : TsPacketInfo) where
  -- `report_stats_observe_packet`, then `recovery_engine_push_packet`.
  unfoldable pub take_packet : Engine D → ℕ → Packet → TsPacketInfo → Status × Engine D
  take_packet e i packet info =
      let (now, e') = read_clock e in
      push_packet F (with_stats e' λ s. observe_packet s (pos i) info now) (pos i) packet info

  -- The loop, with the rounds that are left; `blank` is what `info` holds before the parser's call.
  unfoldable pub packet_loop : ℕ → Engine D → ℕ → Packet → ℕ → ℕ → Status × Engine D
  packet_loop zero e i buffer bytes offset = (ok, count_partial e i offset bytes)
  packet_loop (suc rounds) e i buffer bytes offset =
      let packet = from_offset buffer offset in
      elim (leb (offset + ts_packet_size) bytes) [
        | false ↦ (ok, count_partial e i offset bytes)
        | true ↦
            let (parsed, info) = parse packet blank in
            let (status, e') = take_packet e i packet info in
            let resync = find_resync_offset buffer bytes offset in
            elim parsed [
              | true ↦ elim status [
                | ok ↦ packet_loop rounds e' i buffer bytes (offset + ts_packet_size)
                | error ↦ (error, e')
              ]
              | false ↦
                  packet_loop rounds (count_malformed e i resync) i buffer bytes
                    (next_offset offset resync)
            ]
      ]

  -- `process_datagram`. Each round moves the offset on by at least one byte, so `bytes` rounds are
  -- enough.
  unfoldable pub process_datagram : Engine D → ℕ → Packet → ℕ → Status × Engine D
  process_datagram e i buffer bytes =
      packet_loop bytes (with_stats e λ s. observe_datagram s (pos i) bytes) i buffer bytes 0

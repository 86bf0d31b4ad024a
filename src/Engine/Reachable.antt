-- ===== src/Engine/Reachable.antt =====
-- src/recovery_engine.h: the calls that a program can make of the engine, in any order, and the
-- states that they lead to.
use two_stream_recovery.Base.{Bool, ◌^◌, ◌<◌, ◌+◌, pos_part, ℤ}
use two_stream_recovery.Ts.{TsPacketInfo, Packet}
use two_stream_recovery.Engine.State.{Engine, Env, Config}
use two_stream_recovery.Stats.{Stats}
use two_stream_recovery.Stats.Double.{Double}
use two_stream_recovery.Engine.Drain.Loop.{drain}
use two_stream_recovery.Engine.Init.{init_with_config}
use two_stream_recovery.Engine.Push.{push_packet}
use two_stream_recovery.Engine.Push.WellFormed.{
  IsWellFormed, drain-IsWellFormed, push_packet-IsWellFormed, init_with_config-IsWellFormed,
}

module _ {D : Type 0} (F : Double D) where
  -- The states that the calls of the engine lead to. A stream is given fewer than 2 ^ 64 packets.
  pub data Reachable : Engine D → Type 0 where
    started :
        (env : Env) (stats : Stats D) (c : Config) → Reachable (init_with_config F env stats c)
    received :
        (e : Engine D)
        → Reachable e
        → (stream_id : ℤ) (packet : Packet) (info : TsPacketInfo)
        → e.next_stream_index (pos_part stream_id) + 1 < 2 ^ 64
        → Reachable (push_packet F e stream_id packet info).1
    drained : (e : Engine D) → Reachable e → (force : Bool) → Reachable (drain e force).1

  -- In every state that the engine can come to, the records of both histories carry consecutive
  -- stream indices that end before the next index of their stream, both delay queues are valid, and
  -- the alignment confidence is at most 100.
  pub Reachable-IsWellFormed : (e : Engine D) → Reachable e → IsWellFormed e
  Reachable-IsWellFormed e (started env stats c) = init_with_config-IsWellFormed F env stats c
  Reachable-IsWellFormed e (received e' r stream_id packet info small) =
      push_packet-IsWellFormed F e' stream_id packet info small (Reachable-IsWellFormed e' r)
  Reachable-IsWellFormed e (drained e' r force) =
      drain-IsWellFormed e' force (Reachable-IsWellFormed e' r)

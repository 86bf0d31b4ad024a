-- ===== src/RunLoop.antt =====
-- src/main.c, `run_loop`: what `select` and `recv` give drives the engine, up to the signal that ends
-- the program. The clients of the web server, which are served between the two, are left out.
pub mod Room
pub mod Invariant
pub mod Program
use two_stream_recovery.Base.{[], ◌∷◌, List, ◌==◌, if◌then◌else◌, false, ℕ}
use two_stream_recovery.Ts.{Packet, TsPacketInfo}
use two_stream_recovery.Stats.{Stats}
use two_stream_recovery.Stats.Double.{Double}
use two_stream_recovery.Stats.Rolling.{tick}
use two_stream_recovery.Engine.State.{Engine, Env, Config, Status, ok, error}
use two_stream_recovery.Engine.Output.{read_clock}
use two_stream_recovery.Engine.Drain.Loop.{drain, flush}
use two_stream_recovery.Engine.Init.{init_with_config}
use two_stream_recovery.Datagram.{process_datagram, with_stats}

-- What an input gives: it is not ready, `recv` would block, it fails, or it gives that many bytes.
pub data Incoming : Type 0 where
  not_ready would_block broken : Incoming
  datagram : Packet → ℕ → Incoming

-- What `select` gives: EINTR, another error, or the states of the two inputs.
pub data Selected : Type 0 where
  interrupted failed : Selected
  ready : Incoming → Incoming → Selected

module _ {D : Type 0} where
  -- `report_stats_tick`.
  unfoldable pub tick_stats : Engine D → Engine D
  tick_stats e = let (now, e') = read_clock e in with_stats e' λ s. tick s now

  abbrev pub drained : Status × Engine D → Status × Engine D
  drained (error, e) = (error, e)
  drained (ok, e) = drain e false

  abbrev pub ticked : Status × Engine D → Status × Engine D
  ticked (error, e) = (error, e)
  ticked (ok, e) = (ok, tick_stats e)

  abbrev pub then_on : Status × Engine D → (Engine D → Status × Engine D) → Status × Engine D
  then_on (error, e) rest = (error, e)
  then_on (ok, e) rest = rest e

module _ {D : Type 0} (F : Double D) (blank : TsPacketInfo) where
  -- One input: `input_udp_receive`, then `process_datagram`.
  unfoldable pub take_input : Engine D → ℕ → Incoming → Status × Engine D
  take_input e i not_ready = (ok, e)
  take_input e i would_block = (ok, e)
  take_input e i broken = (error, e)
  take_input e i (datagram buffer bytes) =
      if bytes == 0 then (ok, e) else process_datagram F blank e i buffer bytes

  abbrev pub second_input : Incoming → Status × Engine D → Status × Engine D
  second_input input (error, e) = (error, e)
  second_input input (ok, e) = take_input e 1 input

  -- A round of the loop behind `select`.
  unfoldable pub turn : Engine D → Incoming → Incoming → Status × Engine D
  unfolding take_input tick_stats
  turn e first second = ticked (drained (second_input second (take_input e 0 first)))

  -- The loop and the flush behind it, whose result is not looked at. `flush_sink` is the sink's.
  unfoldable pub run_loop : (Engine D → Status) → List Selected → Engine D → Status × Engine D
  unfolding turn
  run_loop flush_sink [] e = (ok, (flush flush_sink e).1)
  run_loop flush_sink (interrupted ∷ rounds) e = run_loop flush_sink rounds e
  run_loop flush_sink (failed ∷ rounds) e = (error, e)
  run_loop flush_sink (ready first second ∷ rounds) e =
      then_on (turn e first second) (run_loop flush_sink rounds)

  -- `run_loop` from the start of the engine on.
  unfoldable pub run :
      (Engine D → Status) → Env → Stats D → Config → List Selected → Status × Engine D
  unfolding run_loop
  run flush_sink env stats c rounds = run_loop flush_sink rounds (init_with_config F env stats c)

-- ===== src/Engine/Drain/Loop.antt =====
-- src/recovery_engine.c, `recovery_engine_drain`: the loop over the
-- delayed primary packets and what comes before and after it.
use two_stream_recovery.Base.{
  ℕ, zero, suc, Bool, true, false, not, ◌&&◌, ◌==◌, if◌then◌else◌, none, some,
}
use two_stream_recovery.Engine.State.{Engine, PacketRecord, Status, ok, error}
use two_stream_recovery.Engine.Queue.{front}
use two_stream_recovery.Engine.Output.{read_clock, set_active_output}
use two_stream_recovery.Engine.Outage.{
  too_young, drain_secondary, return_holdoff_elapsed, discard_output_by_secondary,
}
use two_stream_recovery.Engine.Drain.{Round, again, leave, done, process}

module _ {D : Type 0} where
  abbrev pub returned : Status × Engine D → Round D
  returned (s, e) = done s e

  -- A packet whose delay is over is processed; the loop breaks at a younger one.
  unfoldable pub process_due : Engine D → PacketRecord → ℕ → Bool → Round D
  process_due e primary now force =
      let e' = set_active_output e 0 in
      if not force && too_young primary now e'.primary_queue.delay_ns
      then leave e'
      else process e' primary

  -- One round of the loop, for a queue that is not empty. While the secondary has the output, the
  -- holdoff is asked again.
  unfoldable pub round : Engine D → Bool → Round D
  unfolding process_due
  round e force = elim (front e.primary_queue) [
    | none ↦ leave e
    | some primary ↦
        let (now, e1) = read_clock e in
        let (ready, e2) = return_holdoff_elapsed e1 now in
        if e1.active_output_stream_id == 1
        then if not ready
          then returned (drain_secondary e2 force now)
          else process_due e2 primary now force
        else process_due e1 primary now force
  ]

  -- After the loop: an empty queue lets the secondary stream be looked at.
  unfoldable pub finish : Engine D → Bool → Status × Engine D
  finish e force =
      let (now, e') = read_clock e in
      if e.primary_queue.count == 0 then drain_secondary e' force now else (ok, e)

  unfoldable pub drain_loop : ℕ → Engine D → Bool → Status × Engine D
  drain_loop zero e force = finish e force
  drain_loop (suc rounds) e force = elim (e.primary_queue.count == 0) [
    | true ↦ finish e force
    | false ↦ elim (round e force) [
      | again e' ↦ drain_loop rounds e' force
      | leave e' ↦ finish e' force
      | done s e' ↦ (s, e')
    ]
  ]

  -- The part of `recovery_engine_drain` from the discarding of primary packets on.
  unfoldable pub drain_primary : Engine D → Bool → ℕ → Status × Engine D
  drain_primary e force now =
      let e1 = discard_output_by_secondary e in
      let e2 = set_active_output e1 0 in
      if e1.primary_queue.count == 0
      then if e1.active_output_stream_id == 1 then (ok, e1) else drain_secondary e1 force now
      else drain_loop e2.primary_queue.count e2 force

  -- `recovery_engine_drain`. Each round takes one packet off the primary queue, so its count bounds
  -- the rounds.
  unfoldable pub drain : Engine D → Bool → Status × Engine D
  unfolding drain_primary
  drain e0 force =
      let (now, e1) = read_clock e0 in
      let (ready, e) = return_holdoff_elapsed e1 now in
      if e.primary_queue.count == 0
      then if e.active_output_stream_id == 1 && ready then (ok, e) else drain_secondary e force now
      else if not ready
      then drain_secondary e force now
      else drain_primary e force now

  -- What follows the drain; `flush_sink` is what `packet_sink_flush` returns, for the packets that
  -- the sink has been given.
  abbrev pub then_flush : (Engine D → Status) → Status × Engine D → Status × Engine D
  then_flush flush_sink (error, e) = (error, e)
  then_flush flush_sink (ok, e) = (flush_sink e, e)

  -- `recovery_engine_flush`.
  unfoldable pub flush : (Engine D → Status) → Engine D → Status × Engine D
  flush flush_sink e = then_flush flush_sink (drain e true)

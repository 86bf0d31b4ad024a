-- ===== src/Engine/Outage.antt =====
-- src/recovery_engine.c, the outage of the primary stream: the secondary takes over, and the primary
-- gets the output back after it has been healthy for long enough.
pub mod Holdoff
pub mod Order
use two_stream_recovery.Base.{
  ℕ, zero, suc, ◌+◌, ◌-◌, ◌%◌, ℤ, pos, pos_part, ◌+ℤ◌, int64, ltb_ℤ, Bool, true, false, not, ◌&&◌,
  ◌||◌, ltb, leb, ◌==◌, if◌then◌else◌, sub64, Option, none, some,
}
use two_stream_recovery.Engine.State.{Engine, PacketRecord, Status, ok, error}
use two_stream_recovery.Engine.Queue.{front, pop}
use two_stream_recovery.Engine.Output.{read_clock, output_record, set_active_output}
use two_stream_recovery.Engine.Alignment.{expected_index}

-- `arrival_time_ns <= now_ns && now_ns - arrival_time_ns < delay_ns`.
abbrev pub too_young : PacketRecord → ℕ → ℕ → Bool
too_young r now delay = leb r.arrival_time_ns now && ltb (sub64 now r.arrival_time_ns) delay

module _ {D : Type 0} where
  -- `primary_is_silent_beyond_outage`.
  unfoldable pub primary_is_silent : Engine D → ℕ → Bool
  primary_is_silent e now =
      let last : ℕ = e.last_input_arrival_ns 0 in
      if e.config.primary_outage_ns == 0 || e.last_input_arrival_ns 1 == 0
      then false
      else if last == 0
      then false
      else if ltb now last
      then false
      else leb e.config.primary_outage_ns (sub64 now last)

  unfoldable pub pop_secondary : Engine D → Engine D
  unfolding pop
  pop_secondary e = record e { secondary_queue = pop e.secondary_queue }

  unfoldable pub pop_primary : Engine D → Engine D
  unfolding pop
  pop_primary e = record e { primary_queue = pop e.primary_queue }

  -- `discard_secondary_records_through`, with the rounds that are left.
  unfoldable pub discard_through : ℕ → Engine D → ℕ → Engine D
  unfolding pop_secondary front
  discard_through zero e stream_index = e
  discard_through (suc rounds) e stream_index =
      let rest = discard_through rounds (pop_secondary e) stream_index in
      elim (front e.secondary_queue) [
        | none ↦ e
        | some secondary ↦ if ltb stream_index secondary.stream_index then e else rest
      ]

  -- The secondary index up to which the primary's output reaches, if that is known.
  unfoldable pub output_cutoff : Engine D → Option ℕ
  unfolding ◌+ℤ◌
  output_cutoff e =
      let anchor = e.last_primary_anchor in
      let index = int64 (e.last_output_stream_index 0) +ℤ e.alignment.offset_packets in
      let from_anchor = if anchor.valid then some anchor.secondary_index else none in
      if e.alignment.has_alignment
        && e.has_output_stream_index 0
        && not (ltb_ℤ index (pos 0))
        && (not anchor.valid || ltb anchor.secondary_index (pos_part index))
      then some (pos_part index)
      else from_anchor

  -- `discard_secondary_records_already_output_by_primary`.
  unfoldable pub discard_output_by_primary : Engine D → Engine D
  unfolding output_cutoff
  discard_output_by_primary e = elim (output_cutoff e) [
    | none ↦ e
    | some cutoff ↦ discard_through e.secondary_queue.count e cutoff
  ]

  -- `primary_record_already_output_by_secondary`.
  unfoldable pub already_output_by_secondary : Engine D → PacketRecord → Bool
  unfolding expected_index
  already_output_by_secondary e primary =
      let index = expected_index e 0 primary in
      if not e.alignment.has_alignment || not (e.has_output_stream_index 1)
      then false
      else not (ltb_ℤ index (pos 0)) && leb (pos_part index) (e.last_output_stream_index 1)

  unfoldable pub discard_loop : ℕ → Engine D → Engine D
  unfolding pop_primary front
  discard_loop zero e = e
  discard_loop (suc rounds) e =
      let rest = discard_loop rounds (pop_primary e) in
      elim (front e.primary_queue) [
        | none ↦ e
        | some primary ↦ if not (already_output_by_secondary e primary) then e else rest
      ]

  -- `discard_primary_records_already_output_by_secondary`.
  unfoldable pub discard_output_by_secondary : Engine D → Engine D
  discard_output_by_secondary e = discard_loop e.primary_queue.count e

  -- The loop of `drain_secondary_on_primary_outage`: one packet, or all of them under `force`.
  unfoldable pub drain_secondary_loop : ℕ → Engine D → Bool → Status × Engine D
  drain_secondary_loop zero e force = (ok, e)
  drain_secondary_loop (suc rounds) e force = elim (front e.secondary_queue) [
    | none ↦ (ok, e)
    | some secondary ↦
        let (now, e1) = read_clock e in
        if not force && too_young secondary now e1.secondary_queue.delay_ns
        then (ok, e1)
        else let (status, e2) = output_record (set_active_output e1 1) secondary in
          elim status [
            | error ↦ (error, e2)
            | ok ↦
                if not force
                then (ok, pop_secondary e2)
                else drain_secondary_loop rounds (pop_secondary e2) force
          ]
  ]

  -- `drain_secondary_on_primary_outage`.
  unfoldable pub drain_secondary : Engine D → Bool → ℕ → Status × Engine D
  drain_secondary e force now =
      let e' = discard_output_by_primary e in
      if not (e.active_output_stream_id == 1) && not (primary_is_silent e now)
      then (ok, e)
      else drain_secondary_loop e'.secondary_queue.count e' force

  abbrev pub start_return : Engine D → ℕ → Engine D
  start_return e t = record e { primary_return_start_ns = t }

  -- `primary_return_holdoff_elapsed`.
  unfoldable pub return_holdoff_elapsed : Engine D → ℕ → Bool × Engine D
  unfolding primary_is_silent
  return_holdoff_elapsed e now =
      let since : ℕ = if e.primary_return_start_ns == 0 then now else e.primary_return_start_ns in
      if not (e.active_output_stream_id == 1)
      then (true, start_return e 0)
      else if primary_is_silent e now
      then (false, start_return e 0)
      else if e.last_input_arrival_ns 0 == 0
      then (false, start_return e 0)
      else (leb e.config.primary_return_ns (sub64 now since), start_return e since)

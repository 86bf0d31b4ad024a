-- ===== src/Engine/Drain/Flush.antt =====
-- src/recovery_engine.c, `recovery_engine_drain` and `recovery_engine_flush` while the sink takes
-- every packet.
use two_stream_recovery.Engine.Drain.Ends.{drain_empties, continued}
use two_stream_recovery.Engine.Drain.Loop.{
  flush, then_flush, returned, finish, drain, round, drain_primary, process_due, drain_loop,
}
use two_stream_recovery.Engine.Drain.{process, done, leave, again, Round}
use two_stream_recovery.Engine.Outage.{
  primary_is_silent, too_young, return_holdoff_elapsed, discard_output_by_primary, pop_secondary,
  drain_secondary, drain_secondary_loop, discard_output_by_secondary,
}
use two_stream_recovery.Engine.State.{Engine, PacketRecord, Status, ok, error}
use two_stream_recovery.Base.{
  zero, false, ◌&&◌, Bool-cases, inr, ◌==◌, inl, true, suc, not, if◌then◌else◌, ◌∙◌, ap, ◌≡◌, ℕ,
  Option-cases, Bool, refl,
}
use two_stream_recovery.Engine.Output.{output_record, read_clock, set_active_output}
use two_stream_recovery.Engine.Queue.{front}
use two_stream_recovery.Engine.Output.Clean.{output_record-Keeps}
use two_stream_recovery.Engine.Recovery.There.{TakesAll, TakesAll-after, output_record-ok}
use two_stream_recovery.Engine.Drain.Queues.{
  Takes, Takes-trans, set_active_output-Takes, read_clock-Takes, return_holdoff-Takes,
  discard_output_by_primary-Takes, discard_loop-Drains, Drains,
}
use two_stream_recovery.Engine.Drain.Taken.{HasPassed, process-HasPassed}

module _ {D : Type 0} where
  -- `output_record` and what follows it in the loop over the secondary queue.
  sent-ok :
      (force : Bool) (rest : Engine D → Status × Engine D) (p : Status × Engine D)
      → p.0 ≡ ok
      → TakesAll p.1
      → ((e : Engine D) → TakesAll e → (rest e).0 ≡ ok)
      → (elim p.0 as (λ x. Status × Engine D) [
        | error ↦ (error, p.1)
        | ok ↦ if not force then (ok, pop_secondary p.1) else rest (pop_secondary p.1)
      ]).0
        ≡ ok
  unfolding pop_secondary
  sent-ok force rest (error, e) h t k = h
  sent-ok false rest (ok, e) h t k = refl
  sent-ok true rest (ok, e) h t k = k (pop_secondary e) t

  pub if-ok :
      (b : Bool) (s t : Status × Engine D)
      → s.0 ≡ ok
      → t.0 ≡ ok
      → (if◌then◌else◌ {A = Status × Engine D} b s t).0 ≡ ok
  if-ok true s t h k = h
  if-ok false s t h k = k

  TakesAll-Takes : (e e' : Engine D) → Takes e e' → TakesAll e → TakesAll e'
  TakesAll-Takes e e' k t n = ap (λ f. f n) k.rests.accepts ∙ t n

  drain_secondary_loop-ok :
      (rounds : ℕ) (e : Engine D) (force : Bool)
      → TakesAll e
      → (drain_secondary_loop rounds e force).0 ≡ ok
  unfolding drain_secondary_loop
  drain_secondary_loop-ok zero e force t = refl
  drain_secondary_loop-ok (suc n) e force t = elim (Option-cases (front e.secondary_queue)) [
    | inl gone ↦ rw (gone, drain_secondary_loop) refl
    | inr (s, there) ↦
        let now = (read_clock e).0 in
        let e1 = (read_clock e).1 in
        let active = set_active_output e1 1 in
        let p = output_record active s in
        let t1 =
          TakesAll-Takes e active
            (Takes-trans e e1 active (read_clock-Takes e) (set_active_output-Takes e1 1)) t in
        let sent =
          sent-ok force (λ e'. drain_secondary_loop n e' force) p (output_record-ok active s t1)
            (TakesAll-after active p.1 (output_record-Keeps active s) t1)
            (λ e' t'. drain_secondary_loop-ok n e' force t') in
        rw (there, drain_secondary_loop)
          (if-ok (not force && too_young s now e1.secondary_queue.delay_ns) (ok, e1) _ refl sent)
  ]

  drain_secondary-ok :
      (e : Engine D) (force : Bool) (now : ℕ) → TakesAll e → (drain_secondary e force now).0 ≡ ok
  unfolding drain_secondary
  drain_secondary-ok e force now t =
      let e' = discard_output_by_primary e in
      if-ok (not (e.active_output_stream_id == 1) && not (primary_is_silent e now)) (ok, e)
        (drain_secondary_loop e'.secondary_queue.count e' force) refl
        (drain_secondary_loop-ok e'.secondary_queue.count e' force
          (TakesAll-Takes e e' (discard_output_by_primary-Takes e) t))

  if-HasPassed :
      (b : Bool) (r s : Round D) → HasPassed r → HasPassed s → HasPassed (if b then r else s)
  if-HasPassed true r s h k = h
  if-HasPassed false r s h k = k

  returned-HasPassed : (p : Status × Engine D) → p.0 ≡ ok → HasPassed (returned p)
  returned-HasPassed (s, e) h = h

  process_due-HasPassed :
      (e : Engine D) (primary : PacketRecord) (now : ℕ) (force : Bool)
      → TakesAll e
      → HasPassed (process_due e primary now force)
  unfolding process_due
  process_due-HasPassed e primary now force t =
      let e' = set_active_output e 0 in
      let t' = TakesAll-Takes e e' (set_active_output-Takes e 0) t in
      if-HasPassed (not force && too_young primary now e'.primary_queue.delay_ns) (leave e')
        (process e' primary) t' (process-HasPassed e' primary t')

  discarded-Drains : (e : Engine D) → Drains e (discard_output_by_secondary e)
  unfolding discard_output_by_secondary
  discarded-Drains e = discard_loop-Drains e.primary_queue.count e

  round-HasPassed : (e : Engine D) (force : Bool) → TakesAll e → HasPassed (round e force)
  unfolding round
  round-HasPassed e force t = elim (Option-cases (front e.primary_queue)) [
    | inl gone ↦ rw (gone, round) t
    | inr (primary, there) ↦
        let now = (read_clock e).0 in
        let e1 = (read_clock e).1 in
        let e2 = (return_holdoff_elapsed e1 now).1 in
        let t1 = TakesAll-Takes e e1 (read_clock-Takes e) t in
        let t2 = TakesAll-Takes e1 e2 (return_holdoff-Takes e1 now) t1 in
        rw (there, round)
          (if-HasPassed (e1.active_output_stream_id == 1) _ _
            (if-HasPassed (not (return_holdoff_elapsed e1 now).0) _ _
              (returned-HasPassed (drain_secondary e2 force now)
                (drain_secondary-ok e2 force now t2))
              (process_due-HasPassed e2 primary now force t2))
            (process_due-HasPassed e1 primary now force t1))
  ]

  finish-ok : (e : Engine D) (force : Bool) → TakesAll e → (finish e force).0 ≡ ok
  unfolding finish
  finish-ok e force t =
      let e1 = (read_clock e).1 in
      if-ok (e.primary_queue.count == 0) (drain_secondary e1 force (read_clock e).0) (ok, e)
        (drain_secondary-ok e1 force (read_clock e).0 (TakesAll-Takes e e1 (read_clock-Takes e) t))
        refl

  continued-ok :
      (force : Bool) (rest : Engine D → Status × Engine D) (r : Round D)
      → HasPassed r
      → ((e : Engine D) → TakesAll e → (rest e).0 ≡ ok)
      → (continued force rest r).0 ≡ ok
  continued-ok force rest (again e) t k = k e t
  continued-ok force rest (leave e) t k = finish-ok e force t
  continued-ok force rest (done s e) h k = h

  drain_loop-ok : (n : ℕ) (e : Engine D) (force : Bool) → TakesAll e → (drain_loop n e force).0 ≡ ok
  unfolding drain_loop
  drain_loop-ok zero e force t = finish-ok e force t
  drain_loop-ok (suc n) e force t = elim (Bool-cases (e.primary_queue.count == 0)) [
    | inl empty ↦ rw (empty, drain_loop) (finish-ok e force t)
    | inr more ↦
        rw (more, drain_loop)
          (continued-ok force (λ e'. drain_loop n e' force) (round e force)
            (round-HasPassed e force t) (λ e' t'. drain_loop-ok n e' force t'))
  ]

  drain_primary-ok :
      (e : Engine D) (force : Bool) (now : ℕ) → TakesAll e → (drain_primary e force now).0 ≡ ok
  unfolding drain_primary
  drain_primary-ok e force now t =
      let e1 = discard_output_by_secondary e in
      let e2 = set_active_output e1 0 in
      let t1 : TakesAll e1 = λ n. ap (λ f. f n) (discarded-Drains e).rests.accepts ∙ t n in
      let t2 = TakesAll-Takes e1 e2 (set_active_output-Takes e1 0) t1 in
      if-ok (e1.primary_queue.count == 0)
        (if◌then◌else◌ {A = Status × Engine D} (e1.active_output_stream_id == 1) (ok, e1)
          (drain_secondary e1 force now))
        (drain_loop e2.primary_queue.count e2 force)
        (if-ok (e1.active_output_stream_id == 1) (ok, e1) (drain_secondary e1 force now) refl
          (drain_secondary-ok e1 force now t1))
        (drain_loop-ok e2.primary_queue.count e2 force t2)

  -- `recovery_engine_drain` returns 0 while the sink takes every packet that it is offered, whatever
  -- the streams bring and whichever recoveries are tried: no record that a recovery has planned to
  -- insert is missing when it is inserted.
  pub drain-ok : (e : Engine D) (force : Bool) → TakesAll e → (drain e force).0 ≡ ok
  unfolding drain
  drain-ok e0 force t =
      let now = (read_clock e0).0 in
      let e1 = (read_clock e0).1 in
      let ready = (return_holdoff_elapsed e1 now).0 in
      let e = (return_holdoff_elapsed e1 now).1 in
      let t1 =
        TakesAll-Takes e1 e (return_holdoff-Takes e1 now)
          (TakesAll-Takes e0 e1 (read_clock-Takes e0) t) in
      let secondary = drain_secondary-ok e force now t1 in
      if-ok (e.primary_queue.count == 0)
        (if◌then◌else◌ {A = Status × Engine D} (e.active_output_stream_id == 1 && ready) (ok, e)
          (drain_secondary e force now))
        (if◌then◌else◌ {A = Status × Engine D} (not ready) (drain_secondary e force now)
          (drain_primary e force now))
        (if-ok (e.active_output_stream_id == 1 && ready) (ok, e) (drain_secondary e force now) refl
          secondary)
        (if-ok (not ready) (drain_secondary e force now) (drain_primary e force now) secondary
          (drain_primary-ok e force now t1))

  then_flush-ok :
      (f : Engine D → Status) (p : Status × Engine D) → p.0 ≡ ok → then_flush f p ≡ (f p.1, p.1)
  then_flush-ok f (ok, e) h = refl
  then_flush-ok f (error, e) h = cc

  -- `recovery_engine_flush`, called while the primary stream has the output and the sink takes every
  -- packet: no packet is left in the primary delay queue, and the result is what the sink's own flush
  -- returns for the packets that it has by then.
  pub flush_complete :
      (flush_sink : Engine D → Status) (e : Engine D)
      → TakesAll e
      → e.active_output_stream_id ≡ 0
      → ((flush flush_sink e).1.primary_queue.count ≡ 0)
        × ((flush flush_sink e).0 ≡ flush_sink (flush flush_sink e).1)
  unfolding flush
  flush_complete flush_sink e t a =
      let good = drain-ok e true t in
      rw (then_flush-ok flush_sink (drain e true) good, flush) (drain_empties e a good, refl)

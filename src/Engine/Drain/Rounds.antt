-- ===== src/Engine/Drain/Rounds.antt =====
-- src/recovery_engine.c, `recovery_engine_drain`: the loop over the delayed primary packets ends, and
-- at a flush no primary packet is left.
use two_stream_recovery.Base.{
  refl, ap, ◌∙◌, inl, inr, Bool-cases, Option-cases, Bool, true, false, ◌≡◌, ◌⊎◌, ℕ, zero, suc, not,
  ◌&&◌, if◌then◌else◌, ◌==◌, none, arith,
}
use two_stream_recovery.Engine.State.{Engine, PacketRecord, Status, ok, error}
use two_stream_recovery.Engine.Queue.{pop, front}
use two_stream_recovery.Engine.Output.{read_clock, set_active_output}
use two_stream_recovery.Engine.Outage.{
  too_young, pop_primary, drain_secondary, return_holdoff_elapsed, discard_output_by_secondary,
}
use two_stream_recovery.Engine.Drain.{Round, again, leave, done}
use two_stream_recovery.Engine.Drain.Kept.{Processed, process-Processed}
use two_stream_recovery.Engine.Drain.Loop.{
  process_due, round, returned, finish, drain_loop, drain_primary, drain,
}
use two_stream_recovery.Engine.Drain.Queues.{
  Takes, Drains, Takes-refl, Takes-trans, Takes-Drains, Drains-trans, Holds-Takes, read_clock-Takes,
  set_active_output-Takes, return_holdoff-Takes, drain_secondary-Takes, pop_primary-Drains,
  discard_loop-Drains, if-Takes1,
}

pub set_active_output-zero :
    {D : Type 0} (e : Engine D) → (set_active_output e 0).active_output_stream_id ≡ 0
unfolding set_active_output
set_active_output-zero e = ground arith

module _ {D : Type 0} where
  -- What one round does: the loop goes on without the packet that was first in the primary queue and
  -- with the primary stream active; it breaks at a packet that is too young; or the function returns,
  -- for the sink's error or because the secondary stream has the output.
  abbrev pub Rounded : Engine D → Bool → Round D → Type 0
  Rounded e force (again e') =
      Drains e e' × (e'.primary_queue ≡ pop e.primary_queue) × (e'.active_output_stream_id ≡ 0)
  Rounded e force (leave e') = Takes e e' × ((force ≡ false) ⊎ (e.primary_queue.count ≡ 0))
  Rounded e force (done s e') = Takes e e' × ((s ≡ error) ⊎ (e.active_output_stream_id ≡ 1))

  output-Rounded :
      (e : Engine D) (force : Bool) (r : Round D)
      → Processed (set_active_output e 0) r
      → Rounded e force r
  unfolding pop_primary
  output-Rounded e force (again e') h =
      let e1 = set_active_output e 0 in
      let active = set_active_output-Takes e 0 in
      (
        Drains-trans e e1 e' (Takes-Drains e e1 active) (
            Drains-trans e1 (pop_primary e1) e' (pop_primary-Drains e1)
              (Takes-Drains _ e' (Holds-Takes (pop_primary e1) e' h))),
        h.primary_queue ∙ ap pop active.primary,
        h.active ∙ set_active_output-zero e,
      )
  output-Rounded e force (leave e') h = elim h [ ]
  output-Rounded e force (done s e') (h, err) =
      (Takes-trans e _ e' (set_active_output-Takes e 0) (Holds-Takes _ e' h), inl err)

  pub process_due-Rounded :
      (e : Engine D) (primary : PacketRecord) (now : ℕ) (force : Bool)
      → Rounded e force (process_due e primary now force)
  unfolding process_due
  process_due-Rounded e primary now true =
      output-Rounded e true _ (process-Processed (set_active_output e 0) primary)
  process_due-Rounded e primary now false =
      let e' = set_active_output e 0 in
      elim (Bool-cases (too_young primary now e'.primary_queue.delay_ns)) [
        | inl young ↦ rw (young, process_due) (set_active_output-Takes e 0, inl refl)
        | inr old ↦ rw (old, process_due) (output-Rounded e false _ (process-Processed e' primary))
      ]

  -- From a state that differs in the secondary queue at most.
  after-Rounded :
      (e e1 : Engine D) (force : Bool) (r : Round D)
      → Takes e e1
      → e1.active_output_stream_id ≡ e.active_output_stream_id
      → Rounded e1 force r
      → Rounded e force r
  after-Rounded e e1 force (again e') t a (d, q, z) =
      (Drains-trans e e1 e' (Takes-Drains e e1 t) d, q ∙ ap pop t.primary, z)
  after-Rounded e e1 force (leave e') t a (k, why) =
      (Takes-trans e e1 e' t k, ground (arith, ap (λ q. q.count) t.primary))
  after-Rounded e e1 force (done s e') t a (k, why) = (Takes-trans e e1 e' t k, ground arith)

  returned-Rounded :
      (e : Engine D) (force : Bool) (p : Status × Engine D)
      → Takes e p.1
      → e.active_output_stream_id ≡ 1
      → Rounded e force (returned p)
  returned-Rounded e force (s, e') t a = (t, inr a)

  if-Rounded :
      (e : Engine D) (force b : Bool) (r s : Round D)
      → (b ≡ true → Rounded e force r)
      → Rounded e force s
      → Rounded e force (if b then r else s)
  if-Rounded e force true r s h k = h refl
  if-Rounded e force false r s h k = k

  pub clock_active :
      (e : Engine D) → (read_clock e).1.active_output_stream_id ≡ e.active_output_stream_id
  unfolding read_clock
  clock_active e = refl

  pub holdoff_active :
      (e : Engine D) (now : ℕ)
      → (return_holdoff_elapsed e now).1.active_output_stream_id ≡ e.active_output_stream_id
  unfolding return_holdoff_elapsed
  holdoff_active e now = ground arith

  front_empty : (e : Engine D) → front e.primary_queue ≡ none → e.primary_queue.count ≡ 0
  unfolding front
  front_empty e h = ground arith

  pub round-Rounded : (e : Engine D) (force : Bool) → Rounded e force (round e force)
  unfolding round
  round-Rounded e force = elim (Option-cases (front e.primary_queue)) [
    | inl gone ↦ rw (gone, round) (Takes-refl e, inr (front_empty e gone))
    | inr (primary, there) ↦
        let now = (read_clock e).0 in
        let e1 = (read_clock e).1 in
        let e2 = (return_holdoff_elapsed e1 now).1 in
        let clock = read_clock-Takes e in
        let both = Takes-trans e e1 e2 clock (return_holdoff-Takes e1 now) in
        rw (there, round)
          (if-Rounded e force (e1.active_output_stream_id == 1) _ _
            (λ a.
              if-Rounded e force (not (return_holdoff_elapsed e1 now).0) _ _
                (λ _.
                  returned-Rounded e force _
                    (Takes-trans e e2 _ both (drain_secondary-Takes e2 force now))
                    (ground (arith, clock_active e)))
                (after-Rounded e e2 force _ both (holdoff_active e1 now ∙ clock_active e)
                  (process_due-Rounded e2 primary now force)))
            (after-Rounded e e1 force _ clock (clock_active e)
              (process_due-Rounded e1 primary now force)))
  ]

  pub finish-Takes : (e : Engine D) (force : Bool) → Takes e (finish e force).1
  unfolding finish
  finish-Takes e force =
      let e1 = (read_clock e).1 in
      if-Takes1 e (e.primary_queue.count == 0) (drain_secondary e1 force (read_clock e).0) (ok, e)
        (Takes-trans e e1 _ (read_clock-Takes e) (drain_secondary-Takes e1 force (read_clock e).0))
        (Takes-refl e)

  -- What the loop does with the round's result.
  continued-Drains :
      (e : Engine D) (force : Bool) (rest : Engine D → Status × Engine D) (r : Round D)
      → Rounded e force r
      → ((e' : Engine D) → Drains e' (rest e').1)
      → Drains e (
          (elim r as (λ x. Status × Engine D) [
            | again e' ↦ rest e'
            | leave e' ↦ finish e' force
            | done s e' ↦ (s, e')
          ]).1)
  continued-Drains e force rest (again e') h k = Drains-trans e e' _ h.0 (k e')
  continued-Drains e force rest (leave e') h k =
      Takes-Drains e _ (Takes-trans e e' _ h.0 (finish-Takes e' force))
  continued-Drains e force rest (done s e') h k = Takes-Drains e e' h.0

  pub drain_loop-Drains :
      (rounds : ℕ) (e : Engine D) (force : Bool) → Drains e (drain_loop rounds e force).1
  unfolding drain_loop
  drain_loop-Drains zero e force = Takes-Drains e _ (finish-Takes e force)
  drain_loop-Drains (suc n) e force = elim (Bool-cases (e.primary_queue.count == 0)) [
    | inl empty ↦ rw (empty, drain_loop) (Takes-Drains e _ (finish-Takes e force))
    | inr more ↦
        rw (more, drain_loop)
          (continued-Drains e force (λ e'. drain_loop n e' force) (round e force)
            (round-Rounded e force) (λ e'. drain_loop-Drains n e' force))
  ]

  if-Drains1 :
      (e : Engine D) (b : Bool) (s t : Status × Engine D)
      → Drains e s.1
      → Drains e t.1
      → Drains e (if◌then◌else◌ {A = Status × Engine D} b s t).1
  if-Drains1 e true s t h k = h
  if-Drains1 e false s t h k = k

  drain_primary-Drains :
      (e : Engine D) (force : Bool) (now : ℕ) → Drains e (drain_primary e force now).1
  unfolding drain_primary discard_output_by_secondary
  drain_primary-Drains e force now =
      let e1 = discard_output_by_secondary e in
      let e2 = set_active_output e1 0 in
      let discarded : Drains e e1 = discard_loop-Drains e.primary_queue.count e in
      if-Drains1 e (e1.primary_queue.count == 0)
        (if◌then◌else◌ {A = Status × Engine D} (e1.active_output_stream_id == 1) (ok, e1)
          (drain_secondary e1 force now))
        (drain_loop e2.primary_queue.count e2 force)
        (if-Drains1 e (e1.active_output_stream_id == 1) (ok, e1) (drain_secondary e1 force now)
          discarded
          (Drains-trans e e1 _ discarded (Takes-Drains e1 _ (drain_secondary-Takes e1 force now))))
        (Drains-trans e e1 _ discarded (
          Drains-trans e1 e2 _ (Takes-Drains e1 e2 (set_active_output-Takes e1 0))
            (drain_loop-Drains e2.primary_queue.count e2 force)))

  -- `recovery_engine_drain` leaves the histories, the configuration, the numbering of the packets and
  -- the alignment as they are; both delay queues stay well formed and hold no more records than
  -- before.
  pub drain-Drains : (e : Engine D) (force : Bool) → Drains e (drain e force).1
  unfolding drain
  drain-Drains e0 force =
      let now = (read_clock e0).0 in
      let e1 = (read_clock e0).1 in
      let ready = (return_holdoff_elapsed e1 now).0 in
      let e = (return_holdoff_elapsed e1 now).1 in
      let before = Takes-trans e0 e1 e (read_clock-Takes e0) (return_holdoff-Takes e1 now) in
      let secondary =
        Takes-Drains e0 _ (Takes-trans e0 e _ before (drain_secondary-Takes e force now)) in
      if-Drains1 e0 (e.primary_queue.count == 0)
        (if◌then◌else◌ {A = Status × Engine D} (e.active_output_stream_id == 1 && ready) (ok, e)
          (drain_secondary e force now))
        (if◌then◌else◌ {A = Status × Engine D} (not ready) (drain_secondary e force now)
          (drain_primary e force now))
        (if-Drains1 e0 (e.active_output_stream_id == 1 && ready) (ok, e)
          (drain_secondary e force now) (Takes-Drains e0 e before) secondary)
        (if-Drains1 e0 (not ready) (drain_secondary e force now) (drain_primary e force now)
          secondary
          (Drains-trans e0 e _ (Takes-Drains e0 e before) (drain_primary-Drains e force now)))

-- ===== src/Engine/Drain/Queues.antt =====
-- src/recovery_engine.c, `recovery_engine_drain` and what it calls: what they do to the two delay
-- queues, and that the loop ends.
use two_stream_recovery.Base.{
  zero, ltb, false, inr, true, not, suc, inl, if◌then◌else◌, ◌-◌, Option-cases, ℕ, ◌∙◌, Bool, ◌≡◌,
  arith, ◌≤◌, refl,
}
use mathlib.Core.Bool.{false, true}
use Prim.Native.Nat.{zero}
use two_stream_recovery.Engine.Drain.{Bool, ℕ}
use two_stream_recovery.Engine.State.{Engine, PacketRecord, DelayQueue, Status, ok, error}
use two_stream_recovery.Engine.Queue.{pop, front}
use two_stream_recovery.Engine.Queue.Refine.{IsValid, pop-IsValid}
use two_stream_recovery.Engine.Output.{output_record, read_clock, set_active_output}
use two_stream_recovery.Engine.Output.Clean.{output_record-Keeps}
use two_stream_recovery.Engine.Outage.{
  pop_primary, pop_secondary, discard_through, discard_output_by_primary, discard_loop,
  drain_secondary_loop, drain_secondary, return_holdoff_elapsed, output_cutoff,
  already_output_by_secondary,
}
use two_stream_recovery.Engine.Drain.Kept.{Holds, Holds-refl}

-- Records leave a queue, and none enters it.
pub record Shrinks (q q' : DelayQueue) : Type 0 where
  pub valid : IsValid q → IsValid q'
  pub fewer : q'.count ≤ q.count

pub Shrinks-refl : (q : DelayQueue) → Shrinks q q
Shrinks-refl q = record { valid = λ v. v; fewer = omega arith }

pub Shrinks-trans : (a b c : DelayQueue) → Shrinks a b → Shrinks b c → Shrinks a c
Shrinks-trans a b c h k = record {
  valid = λ v. k.valid (h.valid v);
  fewer = omega (arith, h.fewer, k.fewer);
}

pub pop-count : (q : DelayQueue) → (pop q).count ≡ q.count - 1
unfolding pop
pop-count q = ground arith

pub pop-Shrinks : (q : DelayQueue) → Shrinks q (pop q)
pop-Shrinks q = record { valid = pop-IsValid q; fewer = omega (arith, pop-count q) }

pub ≡-Shrinks : (q q' : DelayQueue) → q' ≡ q → Shrinks q q'
≡-Shrinks q q' h = rw h (Shrinks-refl q)

module _ {D : Type 0} where
  -- What a drain never touches.
  pub record Rests (e e' : Engine D) : Type 0 where
    pub accepts : e'.env.accepts ≡ e.env.accepts
    pub history : e'.history ≡ e.history
    pub config : e'.config ≡ e.config
    pub next : e'.next_stream_index ≡ e.next_stream_index
    pub alignment : e'.alignment ≡ e.alignment

  pub Rests-refl : (e : Engine D) → Rests e e
  Rests-refl e = ground arith

  pub Rests-trans : (a b c : Engine D) → Rests a b → Rests b c → Rests a c
  Rests-trans a b c h k = ground arith

  -- The secondary queue gives records away and the primary queue stays.
  pub record Takes (e e' : Engine D) : Type 0 where
    pub rests : Rests e e'
    pub primary : e'.primary_queue ≡ e.primary_queue
    pub secondary : Shrinks e.secondary_queue e'.secondary_queue

  -- Both queues may give records away.
  pub record Drains (e e' : Engine D) : Type 0 where
    pub rests : Rests e e'
    pub primary : Shrinks e.primary_queue e'.primary_queue
    pub secondary : Shrinks e.secondary_queue e'.secondary_queue

  pub Holds-Takes : (e e' : Engine D) → Holds e e' → Takes e e'
  Holds-Takes e e' h = record {
    rests = ground arith;
    primary = h.primary_queue;
    secondary = ≡-Shrinks _ _ h.secondary_queue;
  }

  pub Takes-trans : (a b c : Engine D) → Takes a b → Takes b c → Takes a c
  Takes-trans a b c h k = record {
    rests = Rests-trans a b c h.rests k.rests;
    primary = k.primary ∙ h.primary;
    secondary = Shrinks-trans _ _ _ h.secondary k.secondary;
  }

  pub Takes-Drains : (e e' : Engine D) → Takes e e' → Drains e e'
  Takes-Drains e e' h = record {
    rests = h.rests;
    primary = ≡-Shrinks _ _ h.primary;
    secondary = h.secondary;
  }

  pub Drains-trans : (a b c : Engine D) → Drains a b → Drains b c → Drains a c
  Drains-trans a b c h k = record {
    rests = Rests-trans a b c h.rests k.rests;
    primary = Shrinks-trans _ _ _ h.primary k.primary;
    secondary = Shrinks-trans _ _ _ h.secondary k.secondary;
  }

  pub Takes-refl : (e : Engine D) → Takes e e
  Takes-refl e = Holds-Takes e e (Holds-refl e)

  pub read_clock-Takes : (e : Engine D) → Takes e (read_clock e).1
  unfolding read_clock
  read_clock-Takes e = Holds-Takes e _ (ground arith)

  pub set_active_output-Takes : (e : Engine D) (i : ℕ) → Takes e (set_active_output e i)
  unfolding set_active_output
  set_active_output-Takes e i = record {
    rests = ground arith;
    primary = ground arith;
    secondary = ≡-Shrinks _ _ (ground arith);
  }

  pub return_holdoff-Takes : (e : Engine D) (now : ℕ) → Takes e (return_holdoff_elapsed e now).1
  unfolding return_holdoff_elapsed
  return_holdoff-Takes e now = Holds-Takes e _ (ground arith)

  pub output-Takes : (e : Engine D) (r : PacketRecord) → Takes e (output_record e r).1
  output-Takes e r = let k = output_record-Keeps e r in Holds-Takes e _ (ground arith)

  pub pop_secondary-Takes : (e : Engine D) → Takes e (pop_secondary e)
  unfolding pop_secondary
  pop_secondary-Takes e = record {
    rests = ground arith;
    primary = refl;
    secondary = pop-Shrinks e.secondary_queue;
  }

  pub pop_primary-Drains : (e : Engine D) → Drains e (pop_primary e)
  unfolding pop_primary
  pop_primary-Drains e = record {
    rests = ground arith;
    primary = pop-Shrinks e.primary_queue;
    secondary = Shrinks-refl e.secondary_queue;
  }

  if-Takes :
      (e : Engine D) (b : Bool) (s t : Engine D)
      → Takes e s
      → Takes e t
      → Takes e (if b then s else t)
  if-Takes e true s t h k = h
  if-Takes e false s t h k = k

  pub discard_through-Takes :
      (rounds : ℕ) (e : Engine D) (i : ℕ) → Takes e (discard_through rounds e i)
  unfolding discard_through
  discard_through-Takes zero e i = Takes-refl e
  discard_through-Takes (suc n) e i =
      let rest =
        Takes-trans e (pop_secondary e) _ (pop_secondary-Takes e)
          (discard_through-Takes n (pop_secondary e) i) in
      elim (Option-cases (front e.secondary_queue)) [
        | inl gone ↦ rw (gone, discard_through) (Takes-refl e)
        | inr (s, there) ↦
            rw (there, discard_through) (if-Takes e (ltb i s.stream_index) _ _ (Takes-refl e) rest)
      ]

  pub discard_output_by_primary-Takes : (e : Engine D) → Takes e (discard_output_by_primary e)
  unfolding discard_output_by_primary
  discard_output_by_primary-Takes e = elim (Option-cases (output_cutoff e)) [
    | inl unknown ↦ rw (unknown, discard_output_by_primary) (Takes-refl e)
    | inr (i, known) ↦
        rw (known, discard_output_by_primary) (discard_through-Takes e.secondary_queue.count e i)
  ]

  -- One packet of the secondary stream: what follows it depends on the sink.
  sent-Takes :
      (e : Engine D) (force : Bool) (rest : Engine D → Status × Engine D) (p : Status × Engine D)
      → Takes e p.1
      → ((e' : Engine D) → Takes e' (rest e').1)
      → Takes e (
          (elim p.0 as (λ x. Status × Engine D) [
            | error ↦ (error, p.1)
            | ok ↦ if not force then (ok, pop_secondary p.1) else rest (pop_secondary p.1)
          ]).1)
  sent-Takes e force rest (error, e') k h = k
  sent-Takes e false rest (ok, e') k h = Takes-trans e e' _ k (pop_secondary-Takes e')
  sent-Takes e true rest (ok, e') k h =
      Takes-trans e e' _ k (Takes-trans e' (pop_secondary e') _ (pop_secondary-Takes e') (h _))

  pub if-Takes1 :
      (e : Engine D) (b : Bool) (s t : Status × Engine D)
      → Takes e s.1
      → Takes e t.1
      → Takes e (if◌then◌else◌ {A = Status × Engine D} b s t).1
  if-Takes1 e true s t h k = h
  if-Takes1 e false s t h k = k

  pub drain_secondary_loop-Takes :
      (rounds : ℕ) (e : Engine D) (force : Bool) → Takes e (drain_secondary_loop rounds e force).1
  unfolding drain_secondary_loop
  drain_secondary_loop-Takes zero e force = Takes-refl e
  drain_secondary_loop-Takes (suc n) e force = elim (Option-cases (front e.secondary_queue)) [
    | inl gone ↦ rw (gone, drain_secondary_loop) (Takes-refl e)
    | inr (s, there) ↦
        let e1 = (read_clock e).1 in
        let active = set_active_output e1 1 in
        let clock = read_clock-Takes e in
        rw (there, drain_secondary_loop)
          (if-Takes1 e _ _ _ clock (
            sent-Takes e force (λ e'. drain_secondary_loop n e' force) (output_record active s)
              (Takes-trans e e1 _ clock
                (Takes-trans e1 active _ (set_active_output-Takes e1 1) (output-Takes active s)))
              (λ e'. drain_secondary_loop-Takes n e' force)))
  ]

  pub drain_secondary-Takes :
      (e : Engine D) (force : Bool) (now : ℕ) → Takes e (drain_secondary e force now).1
  unfolding drain_secondary
  drain_secondary-Takes e force now =
      let e' = discard_output_by_primary e in
      if-Takes1 e _ (ok, e) _ (Takes-refl e)
        (Takes-trans e e' _ (discard_output_by_primary-Takes e)
          (drain_secondary_loop-Takes e'.secondary_queue.count e' force))

  if-Drains :
      (e : Engine D) (b : Bool) (s t : Engine D)
      → Drains e s
      → Drains e t
      → Drains e (if b then s else t)
  if-Drains e true s t h k = h
  if-Drains e false s t h k = k

  pub Drains-refl : (e : Engine D) → Drains e e
  Drains-refl e = Takes-Drains e e (Takes-refl e)

  pub discard_loop-Drains : (rounds : ℕ) (e : Engine D) → Drains e (discard_loop rounds e)
  unfolding discard_loop
  discard_loop-Drains zero e = Drains-refl e
  discard_loop-Drains (suc n) e =
      let rest =
        Drains-trans e (pop_primary e) _ (pop_primary-Drains e)
          (discard_loop-Drains n (pop_primary e)) in
      elim (Option-cases (front e.primary_queue)) [
        | inl gone ↦ rw (gone, discard_loop) (Drains-refl e)
        | inr (s, there) ↦
            rw (there, discard_loop)
              (if-Drains e (not (already_output_by_secondary e s)) _ _ (Drains-refl e) rest)
      ]

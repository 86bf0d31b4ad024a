-- ===== src/Engine/Drain/Ends.antt =====
-- src/recovery_engine.c, `recovery_engine_drain`: the loop ends, and at a flush no primary packet is
-- left behind.
use two_stream_recovery.Engine.Output.{set_active_output, read_clock}
use two_stream_recovery.Engine.Outage.{
  return_holdoff_elapsed, discard_output_by_secondary, drain_secondary, pop_primary,
  already_output_by_secondary, discard_loop,
}
use two_stream_recovery.Base.{
  false, Option-cases, ◌-◌, refl, ap, ◌∙◌, inl, inr, Bool-cases, Bool, true, ◌≡◌, ◌≤◌, ℕ, zero, suc,
  ◌==◌, arith,
}
use two_stream_recovery.Engine.Drain.{Round, again, leave, done}
use two_stream_recovery.Engine.Drain.Queues.{drain_secondary-Takes, pop-count}
use two_stream_recovery.Engine.Drain.Loop.{drain, drain_primary, round, finish, drain_loop}
use two_stream_recovery.Engine.State.{Engine, Status, ok}
use two_stream_recovery.Engine.Queue.{front}
use two_stream_recovery.Engine.Drain.Rounds.{
  set_active_output-zero, clock_active, holdoff_active, Rounded, round-Rounded, finish-Takes,
}

module _ {D : Type 0} where
  abbrev pub continued : Bool → (Engine D → Status × Engine D) → Round D → Status × Engine D
  continued force rest (again e') = rest e'
  continued force rest (leave e') = finish e' force
  continued force rest (done s e') = (s, e')

  continued_same :
      (e : Engine D) (force : Bool) (n m : ℕ) (r : Round D)
      → Rounded e force r
      → e.primary_queue.count ≤ suc n
      → e.primary_queue.count ≤ suc m
      → ((e' : Engine D)
          → e'.primary_queue.count ≤ n
          → e'.primary_queue.count ≤ m
          → drain_loop n e' force ≡ drain_loop m e' force)
      → continued force (λ e'. drain_loop n e' force) r
        ≡ continued force (λ e'. drain_loop m e' force) r
  continued_same e force n m (again e') (d, q, z) h k same =
      let shorter : e'.primary_queue.count ≡ e.primary_queue.count - 1 =
        ap (λ p. p.count) q ∙ pop-count e.primary_queue in
      same e' (omega arith) (omega arith)
  continued_same e force n m (leave e') r h k same = refl
  continued_same e force n m (done s e') r h k same = refl

  -- The loop of `recovery_engine_drain` ends: with as many rounds as the primary queue has records it
  -- has come to its end, and more rounds change nothing.
  pub drain_loop_enough :
      (n m : ℕ) (e : Engine D) (force : Bool)
      → e.primary_queue.count ≤ n
      → e.primary_queue.count ≤ m
      → drain_loop n e force ≡ drain_loop m e force
  unfolding drain_loop
  drain_loop_enough zero zero e force h k = refl
  drain_loop_enough zero (suc m) e force h k =
      let empty : (e.primary_queue.count == 0) ≡ true = ground arith in rw (empty, drain_loop) refl
  drain_loop_enough (suc n) zero e force h k =
      let empty : (e.primary_queue.count == 0) ≡ true = ground arith in rw (empty, drain_loop) refl
  drain_loop_enough (suc n) (suc m) e force h k = elim (Bool-cases (e.primary_queue.count == 0)) [
    | inl empty ↦ rw (empty, drain_loop) refl
    | inr more ↦
        rw (more, drain_loop)
          (continued_same e force n m (round e force) (round-Rounded e force) h k
            (λ e' h' k'. drain_loop_enough n m e' force h' k'))
  ]

  finish_empty :
      (e : Engine D) (force : Bool)
      → e.primary_queue.count ≡ 0
      → (finish e force).1.primary_queue.count ≡ 0
  finish_empty e force h = ap (λ q. q.count) (finish-Takes e force).primary ∙ h

  continued_empty :
      (e : Engine D) (n : ℕ) (r : Round D)
      → Rounded e true r
      → e.primary_queue.count ≤ suc n
      → e.active_output_stream_id ≡ 0
      → (continued true (λ e'. drain_loop n e' true) r).0 ≡ ok
      → ((e' : Engine D)
          → e'.primary_queue.count ≤ n
          → e'.active_output_stream_id ≡ 0
          → (drain_loop n e' true).0 ≡ ok
          → (drain_loop n e' true).1.primary_queue.count ≡ 0)
      → (continued true (λ e'. drain_loop n e' true) r).1.primary_queue.count ≡ 0
  continued_empty e n (again e') (d, q, z) h a good empties =
      let shorter : e'.primary_queue.count ≡ e.primary_queue.count - 1 =
        ap (λ p. p.count) q ∙ pop-count e.primary_queue in
      empties e' (omega arith) z good
  continued_empty e n (leave e') (t, why) h a good empties =
      finish_empty e' true (ground (arith, ap (λ q. q.count) t.primary))
  continued_empty e n (done s e') (t, why) h a good empties = ground arith

  drain_loop_empties :
      (n : ℕ) (e : Engine D)
      → e.primary_queue.count ≤ n
      → e.active_output_stream_id ≡ 0
      → (drain_loop n e true).0 ≡ ok
      → (drain_loop n e true).1.primary_queue.count ≡ 0
  unfolding drain_loop
  drain_loop_empties zero e h a good = finish_empty e true (omega arith)
  drain_loop_empties (suc n) e h a good = elim (Bool-cases (e.primary_queue.count == 0)) [
    | inl empty ↦ rw (empty, drain_loop) (finish_empty e true (ground arith))
    | inr more ↦
        let good' : (continued true (λ e'. drain_loop n e' true) (round e true)).0 ≡ ok =
          rw (more, drain_loop) at good in
        rw (more, drain_loop)
          (continued_empty e n (round e true) (round-Rounded e true) h a good'
            (λ e' h' a' good''. drain_loop_empties n e' h' a' good''))
  ]

  discard_loop_active :
      (rounds : ℕ) (e : Engine D)
      → (discard_loop rounds e).active_output_stream_id ≡ e.active_output_stream_id
  unfolding discard_loop pop_primary
  discard_loop_active zero e = refl
  discard_loop_active (suc n) e =
      let rest = discard_loop_active n (pop_primary e) in
      elim (Option-cases (front e.primary_queue)) [
        | inl gone ↦ rw (gone, discard_loop) refl
        | inr (s, there) ↦ elim (Bool-cases (already_output_by_secondary e s)) [
          | inl old ↦ rw (there, old, discard_loop) rest
          | inr due ↦ rw (there, due, discard_loop) refl
        ]
      ]

  drain_secondary_empty :
      (e : Engine D) (now : ℕ)
      → e.primary_queue.count ≡ 0
      → (drain_secondary e true now).1.primary_queue.count ≡ 0
  drain_secondary_empty e now h = ap (λ q. q.count) (drain_secondary-Takes e true now).primary ∙ h

  drain_primary_empties :
      (e : Engine D) (now : ℕ)
      → e.active_output_stream_id ≡ 0
      → (drain_primary e true now).0 ≡ ok
      → (drain_primary e true now).1.primary_queue.count ≡ 0
  unfolding drain_primary discard_output_by_secondary
  drain_primary_empties e now a good =
      let e1 = discard_output_by_secondary e in
      let e2 = set_active_output e1 0 in
      let a1 = discard_loop_active e.primary_queue.count e ∙ a in
      let primary : (e1.active_output_stream_id == 1) ≡ false = ground (arith, a1) in
      elim (Bool-cases (e1.primary_queue.count == 0)) [
        | inl empty ↦
            rw (empty, primary, drain_primary) (drain_secondary_empty e1 now (ground arith))
        | inr more ↦
            let good' : (drain_loop e2.primary_queue.count e2 true).0 ≡ ok =
              rw (more, drain_primary) at good in
            rw (more, drain_primary)
              (drain_loop_empties e2.primary_queue.count e2 (omega arith)
                (set_active_output-zero e1) good')
      ]

  holdoff-primary :
      (e : Engine D) (now : ℕ)
      → e.active_output_stream_id ≡ 0
      → (return_holdoff_elapsed e now).0 ≡ true
  unfolding return_holdoff_elapsed
  holdoff-primary e now a = ground arith

  -- A forced drain that succeeds while the primary stream has the output leaves no packet in the
  -- primary delay queue.
  pub drain_empties :
      (e : Engine D)
      → e.active_output_stream_id ≡ 0
      → (drain e true).0 ≡ ok
      → (drain e true).1.primary_queue.count ≡ 0
  unfolding drain
  drain_empties e0 a good =
      let now = (read_clock e0).0 in
      let e1 = (read_clock e0).1 in
      let e = (return_holdoff_elapsed e1 now).1 in
      let a1 = clock_active e0 ∙ a in
      let a2 : e.active_output_stream_id ≡ 0 = holdoff_active e1 now ∙ a1 in
      let ready = holdoff-primary e1 now a1 in
      let primary : (e.active_output_stream_id == 1) ≡ false = ground (arith, a2) in
      elim (Bool-cases (e.primary_queue.count == 0)) [
        | inl empty ↦ rw (empty, primary, drain) (drain_secondary_empty e now (ground arith))
        | inr more ↦
            let good' : (drain_primary e true now).0 ≡ ok = rw (more, ready, drain) at good in
            rw (more, ready, drain) (drain_primary_empties e now a2 good')
      ]

-- ===== src/Engine/Push/Enqueue.antt =====
-- src/recovery_engine.c, `recovery_engine_push_packet`: the delay queue takes every packet, at the
-- cost of its oldest one where it is full, and the history numbers the packets.
use two_stream_recovery.Base.{
  refl, ap, ◌∙◌, false, true, inr, inl, [], ◌∷◌, ◌++◌, tail, ltb, ◌⊎◌, if◌then◌else◌, arith, ◌≡◌,
  ◌<◌,
}
use two_stream_recovery.Engine.State.{PacketRecord, DelayQueue, Status, ok, error}
use two_stream_recovery.Engine.Queue.Refine.{
  IsValid, contents, pop-IsValid, push-IsValid, front-pop_refines, push_by_room,
}
use two_stream_recovery.Engine.Push.{force_push, popped_then}
use two_stream_recovery.Engine.Queue

room-cases : (q : DelayQueue) → IsValid q → (q.count < q.capacity) ⊎ (q.count ≡ q.capacity)
room-cases q v = ground arith

pop_room :
    (q : DelayQueue)
    → IsValid q
    → q.count ≡ q.capacity
    → (Queue.pop q).count < (Queue.pop q).capacity
unfolding Queue.pop
pop_room q v full = ground arith

popped_then-ok :
    (p : Status × DelayQueue) (q : DelayQueue) (r : PacketRecord)
    → p.0 ≡ ok
    → popped_then p q r ≡ (ok, p.1)
popped_then-ok (ok, q') q r h = refl
popped_then-ok (error, q') q r h = cc

-- `delay_queue_push` with the retry always takes the record: behind all the others where there is
-- room, and behind all but the oldest where there is none.
pub force_push_refines :
    (q : DelayQueue) (r : PacketRecord)
    → IsValid q
    → ((force_push q r).0 ≡ ok)
      × IsValid (force_push q r).1
      × (contents (force_push q r).1
          ≡ (if ltb q.count q.capacity then contents q else tail (contents q)) ++ (r ∷ []))
unfolding force_push
force_push_refines q r v = elim (room-cases q v) [
  | inl room ↦
      let put = (push_by_room q r v).0 room in
      let less : ltb q.count q.capacity ≡ true = ground arith in
      rw (popped_then-ok (Queue.push q r) q r put.0, less, force_push)
        (refl, push-IsValid q r v, put.1)
  | inr full ↦
      let q' = Queue.pop q in
      let v' = pop-IsValid q v in
      let put = (push_by_room q' r v').0 (pop_room q v full) in
      let not_less : ltb q.count q.capacity ≡ false = ground arith in
      rw ((push_by_room q r v).1 full, not_less, force_push)
        (put.0, push-IsValid q' r v', put.1 ∙ ap (λ xs. xs ++ (r ∷ [])) (front-pop_refines q v).1)
]

-- ===== src/Engine/Queue/Refine.antt =====
-- The delay queue of src/recovery_engine.c as a bounded first-in first-out list.
use two_stream_recovery.Base.{
  ap, inr, inl, Bool-cases, ltb, if◌then◌else◌, ◌%◌, ◌+◌, [], some, ◌∷◌, ◌^◌, none, tail, Option,
  ◌++◌, ◌≤◌, List, ◌≡◌, ◌<◌, length, arith,
}
use two_stream_recovery.Base.Ring.{window, length-window, window_of_ne_zero, window-update}
use two_stream_recovery.Engine.State.{DelayQueue, PacketRecord, ok, error}
use two_stream_recovery.Engine.Queue.{front, pop, push}

pub record IsValid (q : DelayQueue) : Type 0 where
  pub start_in : q.start < q.capacity
  pub count_in : q.count ≤ q.capacity
  pub small : q.capacity ≤ 2 ^ 62

abbrev pub contents : DelayQueue → List PacketRecord
contents q = window q.records q.capacity q.start q.count

pub length-contents : (q : DelayQueue) → length (contents q) ≡ q.count
length-contents q = length-window q.records q.capacity q.start q.count

-- The list operations that the queue stands for.
abbrev pub list_front : List PacketRecord → Option PacketRecord
list_front [] = none
list_front (x ∷ xs) = some x

pub pop-IsValid : (q : DelayQueue) → IsValid q → IsValid (pop q)
unfolding pop
pop-IsValid q v = ground arith

pub push-IsValid : (q : DelayQueue) (r : PacketRecord) → IsValid q → IsValid (push q r).1
unfolding push
push-IsValid q r v = ground arith

-- `delay_queue_front` gives the oldest record of the queue, or NULL for an empty queue, and
-- `delay_queue_pop` takes that record off and keeps the rest in order.
pub front-pop_refines :
    (q : DelayQueue)
    → IsValid q
    → (front q ≡ list_front (contents q)) × (contents (pop q) ≡ tail (contents q))
unfolding front pop
front-pop_refines q v = ground (arith, window_of_ne_zero q.records q.capacity q.start q.count)

pub push_by_room :
    (q : DelayQueue) (r : PacketRecord)
    → IsValid q
    → (q.count < q.capacity
        → ((push q r).0 ≡ ok) × (contents (push q r).1 ≡ contents q ++ (r ∷ [])))
      × (q.count ≡ q.capacity → push q r ≡ (error, q))
unfolding push
push_by_room q r v = (
  λ room. ground (
    arith,
    window-update q.records q.capacity r q.count q.start ((q.start + q.count) % q.capacity),
  ),
  λ full. ground arith,
)

-- `delay_queue_push` appends the record to a queue that has room and returns 0; it returns -1 and
-- leaves the records as they are when the queue is full.
pub delay_queue_push_refines :
    (q : DelayQueue) (r : PacketRecord)
    → IsValid q
    → ((push q r).0 ≡ (if ltb q.count q.capacity then ok else error))
      × (contents (push q r).1
          ≡ (if ltb q.count q.capacity then contents q ++ (r ∷ []) else contents q))
delay_queue_push_refines q r v = elim (Bool-cases (ltb q.count q.capacity)) [
  | inl room ↦ rw room ((push_by_room q r v).0 (ground arith))
  | inr full ↦
      let same = (push_by_room q r v).1 (ground arith) in
      rw full (ap (λ p. p.0) same, ap (λ p. contents p.1) same)
]

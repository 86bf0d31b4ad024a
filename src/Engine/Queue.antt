-- ===== src/Engine/Queue.antt =====
-- src/recovery_engine.c, the delay queue of one stream (`delay_queue_*`).
pub mod Refine
use two_stream_recovery.Base.{
  ℕ, ◌+◌, ◌-◌, ◌%◌, leb, ◌==◌, if◌then◌else◌, update, add64, Option, none, some,
}
use two_stream_recovery.Engine.State.{DelayQueue, PacketRecord, Status, ok, error}

-- `delay_queue_init`, where the allocation succeeds.
unfoldable pub init : (ℕ → PacketRecord) → ℕ → ℕ → DelayQueue
init zeroed capacity delay = record {
  records = zeroed;
  capacity = capacity;
  start = 0;
  count = 0;
  delay_ns = delay;
}

-- `delay_queue_front`: the record behind the pointer.
unfoldable pub front : DelayQueue → Option PacketRecord
front q = if q.count == 0 then none else some (q.records q.start)

-- `delay_queue_pop`.
unfoldable pub pop : DelayQueue → DelayQueue
pop q =
    if q.count == 0
    then q
    else record q { start = add64 q.start 1 % q.capacity; count = q.count - 1 }

-- `delay_queue_push`.
unfoldable pub push : DelayQueue → PacketRecord → Status × DelayQueue
push q r = if leb q.capacity q.count then (error, q) else (
  ok,
  record q {
    records = update q.records (add64 q.start q.count % q.capacity) r;
    count = q.count + 1;
  },
)

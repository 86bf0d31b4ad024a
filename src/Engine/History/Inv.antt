-- ===== src/Engine/History/Inv.antt =====
-- The representation of `packet_history_t` of src/recovery_engine.c: indices stay in the array.
use two_stream_recovery.Engine.History.{
  PacketRecord, write, push, drop_oldest, prune_loop, prune_older_than, find_index,
}
use two_stream_recovery.Base.{ℕ, zero, suc, ◌^◌, ◌≤◌, ◌<◌, ◌≡◌, some, arith}
use two_stream_recovery.Engine.State.{PacketHistory}

pub record IsValid (h : PacketHistory) : Type 0 where
  pub start_in : h.start < h.capacity
  pub count_in : h.count ≤ h.capacity
  pub small : h.capacity ≤ 2 ^ 62

-- `packet_history_push` returns an index inside the array and keeps the invariant: the start lies
-- inside the array and no more records are counted than it holds.
pub push-IsValid : (h : PacketHistory) → IsValid h → ((push h).0 < h.capacity) × IsValid (push h).1
unfolding push
push-IsValid h v = ground arith

pub drop_oldest-IsValid : (h : PacketHistory) → IsValid h → IsValid (drop_oldest h)
unfolding drop_oldest
drop_oldest-IsValid h v = ground arith

prune_loop-IsValid :
    (rounds : ℕ) (h : PacketHistory) (cutoff : ℕ) → IsValid h → IsValid (prune_loop rounds h cutoff)
unfolding prune_loop
prune_loop-IsValid zero h cutoff v = v
prune_loop-IsValid (suc rounds) h cutoff v = ground (
  arith,
  drop_oldest-IsValid h v,
  prune_loop-IsValid rounds (drop_oldest h) cutoff (drop_oldest-IsValid h v),
)

pub prune-IsValid :
    (h : PacketHistory) (cutoff : ℕ) → IsValid h → IsValid (prune_older_than h cutoff)
unfolding prune_older_than
prune-IsValid h cutoff v = prune_loop-IsValid h.count h cutoff v

-- What `packet_history_find_index` finds lies inside the array, and has the stream index asked for.
pub find_index_sound :
    (h : PacketHistory) (i slot : ℕ)
    → IsValid h
    → find_index h i ≡ some slot
    → (slot < h.capacity) × ((h.records slot).stream_index ≡ i)
unfolding find_index
find_index_sound h i slot v e = ground arith

pub write-IsValid :
    (h : PacketHistory) (slot : ℕ) (r : PacketRecord) → IsValid h → IsValid (write h slot r)
unfolding write
write-IsValid h slot r v = ground arith

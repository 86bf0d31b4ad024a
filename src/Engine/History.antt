-- ===== src/Engine/History.antt =====
-- src/recovery_engine.c, the ring of the packets received on one stream (`packet_history_*`).
pub mod Inv
pub mod Contents
pub mod Find
use two_stream_recovery.Base.{
  ℕ, zero, suc, ◌+◌, ◌-◌, ◌%◌, Bool, true, false, not, ltb, leb, ◌==◌, if◌then◌else◌, update, add64,
  sub64, Option, none, some,
}
use two_stream_recovery.Engine.State.{PacketHistory, PacketRecord}

-- `packet_history_init` on the zeroed array of `calloc`, where the allocation succeeds.
unfoldable pub init : (ℕ → PacketRecord) → ℕ → PacketHistory
init zeroed capacity = record { records = zeroed; capacity = capacity; start = 0; count = 0 }

-- `packet_history_push`: the index of the record to fill, and the history that counts it.
unfoldable pub push : PacketHistory → ℕ × PacketHistory
push h =
    if ltb h.count h.capacity
    then (add64 h.start h.count % h.capacity, record h { count = h.count + 1 })
    else (h.start, record h { start = add64 h.start 1 % h.capacity })

-- The caller's writes through the pointer that `packet_history_push` returned.
unfoldable pub write : PacketHistory → ℕ → PacketRecord → PacketHistory
write h slot r = record h { records = update h.records slot r }

pub drop_oldest : PacketHistory → PacketHistory
drop_oldest h = record h { start = add64 h.start 1 % h.capacity; count = h.count - 1 }

-- The loop of `packet_history_prune_older_than`, with the rounds that are left.
prune_loop : ℕ → PacketHistory → ℕ → PacketHistory
unfolding drop_oldest
prune_loop zero h cutoff = h
prune_loop (suc rounds) h cutoff =
    let rest = prune_loop rounds (drop_oldest h) cutoff in
    if h.count == 0 then h else if leb cutoff (h.records h.start).arrival_time_ns then h else rest

-- Each round takes one record off, so `count` rounds are all that the loop can make.
unfoldable pub prune_older_than : PacketHistory → ℕ → PacketHistory
unfolding prune_loop
prune_older_than h cutoff = prune_loop h.count h cutoff

-- `packet_history_find_index`; `none` is NULL.
unfoldable pub find_index : PacketHistory → ℕ → Option ℕ
find_index h stream_index =
    let oldest : ℕ = (h.records h.start).stream_index in
    let offset : ℕ = sub64 stream_index oldest in
    let slot : ℕ = add64 h.start offset % h.capacity in
    if h.count == 0
    then none
    else if ltb stream_index oldest
    then none
    else if leb h.count offset
    then none
    else if not ((h.records slot).stream_index == stream_index)
    then none
    else some slot

-- The record behind the pointer.
unfoldable pub find_record : PacketHistory → ℕ → Option PacketRecord
find_record h stream_index = elim (find_index h stream_index) [
  | none ↦ none
  | some slot ↦ some (h.records slot)
]

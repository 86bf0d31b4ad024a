-- ===== src/Engine/History/Contents.antt =====
-- The history of src/recovery_engine.c as the list of its records, oldest first.
use two_stream_recovery.Base.{
  ℕ, zero, suc, ◌+◌, ◌%◌, ◌≡◌, refl, true, false, arith, ltb, leb, ◌==◌, if◌then◌else◌, List, [],
  ◌∷◌, ◌++◌, length, tail, Bool-cases, inl, inr,
}
use two_stream_recovery.Base.Ring.{
  window, length-window, window_of_ne_zero, window-update, window-overwrite,
}
use two_stream_recovery.Engine.State.{PacketHistory, PacketRecord}
use two_stream_recovery.Engine.History.{push, write, drop_oldest, prune_loop, prune_older_than}
use two_stream_recovery.Engine.History.Inv.{IsValid, drop_oldest-IsValid}

abbrev pub contents : PacketHistory → List PacketRecord
contents h = window h.records h.capacity h.start h.count

-- A log of bounded size: a full one loses its oldest entry.
abbrev pub log_push : ℕ → List PacketRecord → PacketRecord → List PacketRecord
log_push capacity xs r = (if length xs == capacity then tail xs else xs) ++ (r ∷ [])

-- Its entries from the first on that is not older than the cutoff.
abbrev pub log_prune : ℕ → List PacketRecord → List PacketRecord
log_prune cutoff [] = []
log_prune cutoff (x ∷ xs) = elim (leb cutoff x.arrival_time_ns) [
  | true ↦ x ∷ xs
  | false ↦ log_prune cutoff xs
]

pub length-contents : (h : PacketHistory) → length (contents h) ≡ h.count
length-contents h = length-window h.records h.capacity h.start h.count

-- Filling the record that `packet_history_push` hands out appends it to the records of the history;
-- a full history loses its oldest record for it.
pub push_refines :
    (h : PacketHistory) (r : PacketRecord)
    → IsValid h
    → contents (write (push h).1 (push h).0 r) ≡ log_push h.capacity (contents h) r
unfolding push write
push_refines h r v = elim (Bool-cases (ltb h.count h.capacity)) [
  | inl room ↦ ground (
    arith,
    length-contents h,
    window-update h.records h.capacity r h.count h.start ((h.start + h.count) % h.capacity),
  )
  | inr full ↦ ground (
    arith,
    length-contents h,
    window_of_ne_zero h.records h.capacity h.start h.count,
    window-overwrite h.records h.capacity r h.start,
  )
]

prune_loop_refines :
    (rounds : ℕ) (h : PacketHistory) (cutoff : ℕ)
    → IsValid h
    → h.count ≡ rounds
    → contents (prune_loop rounds h cutoff) ≡ log_prune cutoff (contents h)
unfolding prune_loop drop_oldest
prune_loop_refines zero h cutoff v e = rw e
prune_loop_refines (suc n) h cutoff v e = ground (
  arith,
  window_of_ne_zero h.records h.capacity h.start h.count,
  drop_oldest-IsValid h v,
  prune_loop_refines n (drop_oldest h) cutoff (drop_oldest-IsValid h v),
)

-- `packet_history_prune_older_than` takes the records from the front that are older than the cutoff,
-- up to the first that is not.
pub prune_refines :
    (h : PacketHistory) (cutoff : ℕ)
    → IsValid h
    → contents (prune_older_than h cutoff) ≡ log_prune cutoff (contents h)
unfolding prune_older_than
prune_refines h cutoff v = prune_loop_refines h.count h cutoff v refl

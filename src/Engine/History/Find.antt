-- ===== src/Engine/History/Find.antt =====
-- `packet_history_find_index` of src/recovery_engine.c against the list of the records.
use two_stream_recovery.Engine.History.Inv.{write-IsValid, push-IsValid, prune-IsValid, IsValid}
use two_stream_recovery.Engine.History.Contents.{
  push_refines, prune_refines, log_prune, log_push, contents, length-contents,
}
use two_stream_recovery.Engine.History.{push, write, prune_older_than, find_index, find_record}
use two_stream_recovery.Base.{
  length-append, ◌==◌, inr, inl, leb, Bool-cases, tail, ◌++◌, ℕ, zero, suc, ◌+◌, ◌-◌, ◌%◌, ◌^◌, ◌≤◌,
  ◌<◌, ◌≡◌, refl, ap, sym, ◌∙◌, arith, ltb, if◌then◌else◌, List, [], ◌∷◌, length, get_elem?, none,
  some,
}
use two_stream_recovery.Base.Ring.{get_elem?-window}
use two_stream_recovery.Engine.State.{PacketHistory, PacketRecord}

-- The records carry the stream indices from `n` on.
abbrev pub AreNumbered : ℕ → List PacketRecord → Type 0
AreNumbered n [] = Unit
AreNumbered n (x ∷ xs) = (x.stream_index ≡ n) × AreNumbered (n + 1) xs

numbered_at :
    (k n : ℕ) (xs : List PacketRecord) (x : PacketRecord)
    → AreNumbered n xs
    → get_elem? xs k ≡ some x
    → x.stream_index ≡ n + k
numbered_at k n [] x h e = cc
numbered_at zero n (y ∷ ys) x h e = ground arith
numbered_at (suc k) n (y ∷ ys) x h e = omega (arith, numbered_at k (n + 1) ys x h.1 e)

get_elem?-beyond : (xs : List PacketRecord) (k : ℕ) → length xs ≤ k → get_elem? xs k ≡ none
get_elem?-beyond [] k h = refl
get_elem?-beyond (x ∷ xs) zero h = absurd (omega arith)
get_elem?-beyond (x ∷ xs) (suc k) h = get_elem?-beyond xs k (omega arith)

module _ (h : PacketHistory) (n : ℕ) (v : IsValid h) (num : AreNumbered n (contents h)) where
  numbered_slot :
      (k : ℕ) → k < h.count → (h.records ((h.start + k) % h.capacity)).stream_index ≡ n + k
  numbered_slot k hk =
      numbered_at k n (contents h) (h.records ((h.start + k) % h.capacity)) num
        (get_elem?-window h.records h.capacity k h.start h.count (omega arith) hk)

  numbered_oldest : 0 < h.count → (h.records h.start).stream_index ≡ n
  numbered_oldest hk =
      let at_start : (h.start + 0) % h.capacity ≡ h.start = grind arith in
      ap (λ j. (h.records j).stream_index) (sym at_start) ∙ numbered_slot 0 hk ∙ omega arith

-- In a history whose records are numbered from `n`, looking a stream index up gives the record that
-- stands at that place of the list, and NULL before the first and behind the last.
pub find_record-contents :
    (h : PacketHistory) (n i : ℕ)
    → IsValid h
    → AreNumbered n (contents h)
    → n + h.count ≤ 2 ^ 64
    → i < 2 ^ 64
    → find_record h i ≡ (if ltb i n then none else get_elem? (contents h) (i - n))
unfolding find_record find_index
find_record-contents h n i v num small hi = ground (
  arith,
  numbered_oldest h n v num,
  numbered_slot h n v num (i - n),
  get_elem?-window h.records h.capacity (i - n) h.start h.count,
  get_elem?-beyond (contents h) (i - n),
  length-contents h,
)

append-AreNumbered :
    (n : ℕ) (xs : List PacketRecord) (r : PacketRecord)
    → AreNumbered n xs
    → r.stream_index ≡ n + length xs
    → AreNumbered n (xs ++ (r ∷ []))
append-AreNumbered n [] r h e = (omega arith, tt)
append-AreNumbered n (x ∷ xs) r h e = (h.0, append-AreNumbered (n + 1) xs r h.1 (omega arith))

tail-AreNumbered :
    (n : ℕ) (xs : List PacketRecord) → AreNumbered n xs → AreNumbered (n + 1) (tail xs)
tail-AreNumbered n [] h = tt
tail-AreNumbered n (x ∷ xs) h = h.1

length-tail : (xs : List PacketRecord) → length (tail xs) ≡ length xs - 1
length-tail [] = refl
length-tail (x ∷ xs) = omega arith

-- The history is valid, and its records are numbered up to the index that comes next.
pub record IsNumbered (h : PacketHistory) (next : ℕ) : Type 0 where
  pub valid : IsValid h
  pub from : ℕ
  pub numbered : AreNumbered from (contents h)
  pub up_to : from + h.count ≡ next

-- The numbering of a list, with the index behind its last entry.
abbrev EndsAt : ℕ → List PacketRecord → Type 0
EndsAt next xs = (n : ℕ) × AreNumbered n xs × (n + length xs ≡ next)

log_push-EndsAt :
    (capacity n : ℕ) (xs : List PacketRecord) (r : PacketRecord)
    → 0 < capacity
    → AreNumbered n xs
    → r.stream_index ≡ n + length xs
    → EndsAt (n + length xs + 1) (log_push capacity xs r)
log_push-EndsAt capacity n xs r pos h e = elim (Bool-cases (length xs == capacity)) [
  | inl full ↦ rw full (
    n + 1,
    append-AreNumbered (n + 1) (tail xs) r (tail-AreNumbered n xs h)
        (ground (arith, length-tail xs)),
    ground (arith, length-tail xs, length-append (tail xs) (r ∷ [])),
  )
  | inr room ↦ rw room (n, append-AreNumbered n xs r h e, omega (arith, length-append xs (r ∷ [])))
]

log_prune-EndsAt :
    (cutoff n : ℕ) (xs : List PacketRecord)
    → AreNumbered n xs
    → EndsAt (n + length xs) (log_prune cutoff xs)
log_prune-EndsAt cutoff n [] h = (n, tt, refl)
log_prune-EndsAt cutoff n (x ∷ xs) h = elim (Bool-cases (leb cutoff x.arrival_time_ns)) [
  | inl young ↦ rw (young, log_prune) (n, h, refl)
  | inr old ↦
      rw (old, log_prune)
        (let r = log_prune-EndsAt cutoff (n + 1) xs h.1 in (r.0, r.1, omega (arith, r.2)))
]

-- A history whose record is filled with the next index stays numbered.
pub push-IsNumbered :
    (h : PacketHistory) (next : ℕ) (r : PacketRecord)
    → IsNumbered h next
    → r.stream_index ≡ next
    → IsNumbered (write (push h).1 (push h).0 r) (next + 1)
push-IsNumbered h next r v e =
    let xs = contents h in
    let b : EndsAt (v.from + length xs + 1) (log_push h.capacity xs r) =
      log_push-EndsAt h.capacity v.from xs r (omega (arith, v.valid)) v.numbered
        (e ∙ omega (arith, v.up_to, length-contents h)) in
    let h' = write (push h).1 (push h).0 r in
    record {
      valid = write-IsValid (push h).1 (push h).0 r (push-IsValid h v.valid).1;
      from = b.0;
      numbered = rw (push_refines h r v.valid) b.1;
      up_to = omega (
        arith,
        b.2,
        v.up_to,
        length-contents h,
        length-contents h',
        ap length (push_refines h r v.valid),
      );
    }

-- So does one whose oldest records are taken off.
pub prune-IsNumbered :
    (h : PacketHistory) (next cutoff : ℕ)
    → IsNumbered h next
    → IsNumbered (prune_older_than h cutoff) next
prune-IsNumbered h next cutoff v =
    let b = log_prune-EndsAt cutoff v.from (contents h) v.numbered in
    let h' = prune_older_than h cutoff in
    record {
      valid = prune-IsValid h cutoff v.valid;
      from = b.0;
      numbered = rw (prune_refines h cutoff v.valid) b.1;
      up_to = omega (
        arith,
        b.2,
        v.up_to,
        length-contents h,
        length-contents h',
        ap length (prune_refines h cutoff v.valid),
      );
    }

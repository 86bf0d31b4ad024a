-- ===== src/Engine/Alignment/Confirmed.antt =====
-- src/recovery_engine.c, `find_confirmed_matching_record_near`: what a match means.
use two_stream_recovery.Base.{
  ◌∙◌, zero, inr, ◌⊎◌, ◌+ℤ◌, pos, ◌-ℤ◌, inl, arith, Option-cases, ◌-◌, ◌+◌, suc, ◌<◌, pos_part, ◌*◌,
  sub64, true, some, ℤ, ◌≡◌, ◌≤◌, ℕ,
}
use Prim.Native.Nat.{zero}
use two_stream_recovery.Engine.State.{PacketRecord, PacketHistory}
use two_stream_recovery.Engine.History.{find_record}
use two_stream_recovery.Engine.Match.{records_match}
use two_stream_recovery.Engine.Alignment.{
  both_match, backward_run, confirmed, match_at, near_loop, match_near,
}

-- The packets at the same distance before both records match.
abbrev pub MatchesBefore : PacketHistory → PacketHistory → PacketRecord → PacketRecord → ℕ → Type 0
MatchesBefore self other r m k =
    (k ≤ r.stream_index)
    × (k ≤ m.stream_index)
    × (both_match (find_record self (sub64 r.stream_index k))
          (find_record other (sub64 m.stream_index k))
        ≡ true)

backward_run_sound :
    (rounds : ℕ) (self other : PacketHistory) (r m : PacketRecord) (count k : ℕ)
    → backward_run rounds self other r m count ≡ true
    → count ≤ k
    → k < count + rounds
    → MatchesBefore self other r m k
unfolding backward_run
backward_run_sound zero self other r m count k h low high = absurd (omega arith)
backward_run_sound (suc n) self other r m count k h low high =
    let where_is : (k ≡ count) ⊎ (count + 1 ≤ k) = ground arith in
    elim where_is [
      | inl same ↦ ground (arith, same)
      | inr more ↦
          backward_run_sound n self other r m (count + 1) k (ground arith) more (omega arith)
    ]

-- A record of the other stream that matches, with all the packets before it that are asked for.
pub record IsConfirmed (self other : PacketHistory) (r : PacketRecord) (required : ℕ)
    (m : PacketRecord) : Type 0 where
  pub index : ℕ
  pub held : find_record other index ≡ some m
  pub matches : records_match r m ≡ true
  pub before : (k : ℕ) → 1 ≤ k → k < required → MatchesBefore self other r m k

match_at-IsConfirmed :
    (self other : PacketHistory) (r : PacketRecord) (required : ℕ) (index : ℤ) (m : PacketRecord)
    → match_at self other r required index ≡ some m
    → IsConfirmed self other r required m
unfolding match_at confirmed
match_at-IsConfirmed self other r required index m h =
    let run : (find_record other (pos_part index) ≡ some m)
        × (records_match r m ≡ true)
        × (backward_run (required - 1) self other r m 1 ≡ true) =
      ground arith in
    record {
      index = pos_part index;
      held = run.0;
      matches = run.1;
      before = λ k low high.
          backward_run_sound (required - 1) self other r m 1 k run.2 low (omega arith);
    }

near_loop-IsConfirmed :
    (rounds : ℕ) (self other : PacketHistory) (r : PacketRecord) (required : ℕ) (index : ℤ)
    (m : PacketRecord)
    → near_loop rounds self other r required index ≡ some m
    → IsConfirmed self other r required m
unfolding near_loop
near_loop-IsConfirmed zero self other r required index m h = cc
near_loop-IsConfirmed (suc n) self other r required index m h =
    elim (Option-cases (match_at self other r required index)) [
      | inl absent ↦
          near_loop-IsConfirmed n self other r required (index +ℤ pos 1) m
            (rw (absent, near_loop) at h)
      | inr (x, hit) ↦
          match_at-IsConfirmed self other r required index m (hit ∙ (rw (hit, near_loop) at h))
    ]

-- A match that the search returns is a record of the other stream's history that matches, and the
-- `required - 1` packets before it match those before the record, each at its distance: none is
-- missing on either side.
pub match_near-IsConfirmed :
    (self other : PacketHistory) (r : PacketRecord) (required : ℕ) (expected : ℤ) (radius : ℕ)
    (m : PacketRecord)
    → match_near self other r required expected radius ≡ some m
    → IsConfirmed self other r required m
unfolding match_near
match_near-IsConfirmed self other r required expected radius m h =
    near_loop-IsConfirmed (2 * radius + 1) self other r required (expected -ℤ pos radius) m h

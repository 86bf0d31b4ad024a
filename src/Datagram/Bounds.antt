-- ===== src/Datagram/Bounds.antt =====
-- src/main.c, `find_resync_offset` and the loop of `process_datagram`: where the search for packets
-- goes on, and that it ends.
use two_stream_recovery.Base.{
  ◌-◌, zero, inr, inl, ◌⊎◌, Bool-cases, arith, ◌*◌, suc, ◌+◌, false, true, some, ◌≡◌, ◌≤◌, ◌<◌, ℕ,
}
use Prim.Native.Nat.{zero}
use two_stream_recovery.Base.Step.{some-injective}
use two_stream_recovery.Ts.{Packet, ts_packet_size, ts_sync_byte}
use two_stream_recovery.Datagram.{sync_run_loop, has_sync_run, resync_loop, find_resync_offset}

sync_run_loop_sound :
    (rounds : ℕ) (buffer : Packet) (bytes offset i k : ℕ)
    → sync_run_loop rounds buffer bytes offset i ≡ true
    → i ≤ k
    → k < i + rounds
    → (offset + k * ts_packet_size < bytes) × (buffer (offset + k * ts_packet_size) ≡ ts_sync_byte)
unfolding sync_run_loop
sync_run_loop_sound zero buffer bytes offset i k h low high = absurd (omega arith)
sync_run_loop_sound (suc n) buffer bytes offset i k h low high =
    let where_is : (k ≡ i) ⊎ (i + 1 ≤ k) = ground arith in
    elim where_is [
      | inl same ↦ rw same (ground arith)
      | inr more ↦
          sync_run_loop_sound n buffer bytes offset (i + 1) k (ground arith) more (omega arith)
    ]

-- Four sync bytes, 188 bytes apart, all inside the datagram.
abbrev pub StandsInSync : Packet → ℕ → ℕ → Type 0
StandsInSync buffer bytes offset =
    (k : ℕ)
    → k < 4
    → (offset + k * ts_packet_size < bytes) × (buffer (offset + k * ts_packet_size) ≡ ts_sync_byte)

-- The first offset of a range at which the four sync bytes stand.
abbrev pub IsFirst : Packet → ℕ → ℕ → ℕ → Type 0
IsFirst buffer bytes from o =
    (from ≤ o)
    × StandsInSync buffer bytes o
    × ((k : ℕ) → from ≤ k → k < o → has_sync_run buffer bytes k ≡ false)

none_later :
    (buffer : Packet) (bytes from o k : ℕ)
    → has_sync_run buffer bytes from ≡ false
    → ((j : ℕ) → from + 1 ≤ j → j < o → has_sync_run buffer bytes j ≡ false)
    → from ≤ k
    → k < o
    → has_sync_run buffer bytes k ≡ false
none_later buffer bytes from o k here rest low high =
    let where_is : (k ≡ from) ⊎ (from + 1 ≤ k) = ground arith in
    elim where_is [ inl same ↦ rw same here | inr more ↦ rest k more high ]

resync_loop-IsFirst :
    (rounds : ℕ) (buffer : Packet) (bytes from o : ℕ)
    → resync_loop rounds buffer bytes from ≡ some o
    → IsFirst buffer bytes from o
unfolding resync_loop has_sync_run
resync_loop-IsFirst zero buffer bytes from o h = cc
resync_loop-IsFirst (suc n) buffer bytes from o h =
    elim (Bool-cases (has_sync_run buffer bytes from)) [
      | inl here ↦
          let same : from ≡ o = some-injective (rw (here, resync_loop) at h) in
          rw (← same) (
            omega arith,
            λ k low. sync_run_loop_sound 4 buffer bytes from 0 k here (omega arith) (omega arith),
            λ k low high. absurd (omega arith),
          )
      | inr later ↦
          let rest =
            resync_loop-IsFirst n buffer bytes (from + 1) o (rw (later, resync_loop) at h) in
          (
            omega (arith, rest.0),
            rest.1,
            λ k low high. none_later buffer bytes from o k later rest.2 low high,
          )
    ]

-- `find_resync_offset` returns an offset behind the one it started from at which four sync bytes
-- stand 188 bytes apart inside the datagram, and the first such offset.
pub find_resync_offset-IsFirst :
    (buffer : Packet) (bytes start o : ℕ)
    → find_resync_offset buffer bytes start ≡ some o
    → IsFirst buffer bytes (start + 1) o
unfolding find_resync_offset
find_resync_offset-IsFirst buffer bytes start o h =
    resync_loop-IsFirst (bytes - (start + 1)) buffer bytes (start + 1) o h

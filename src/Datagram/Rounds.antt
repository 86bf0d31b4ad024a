-- ===== src/Datagram/Rounds.antt =====
-- src/main.c, the loop of `process_datagram`: it ends within as many rounds as there are bytes.
use mathlib.Core.Bool.{true}
use two_stream_recovery.Base.{
  true, ◌∙◌, inr, zero, Bool-cases, arith, suc, inl, sym, false, Option-cases, ◌≡◌, leb, ◌+◌, ◌≤◌,
  ℕ, refl,
}
use Prim.Native.Nat.{zero}
use two_stream_recovery.Ts.{Packet, TsPacketInfo, ts_packet_size, parse}
use two_stream_recovery.Stats.Double.{Double}
use two_stream_recovery.Engine.State.{Engine, ok, error}
use two_stream_recovery.Datagram.Bounds.{find_resync_offset-IsFirst}
use two_stream_recovery.Datagram.{
  find_resync_offset, from_offset, count_malformed, next_offset, count_partial, take_packet,
  packet_loop,
}

-- The offset grows in each round.
next_offset_grows :
    (buffer : Packet) (bytes offset : ℕ)
    → offset + 1 ≤ next_offset offset (find_resync_offset buffer bytes offset)
next_offset_grows buffer bytes offset =
    elim (Option-cases (find_resync_offset buffer bytes offset)) [
      | inl lost ↦ rw lost (omega arith)
      | inr (o, found) ↦ rw found (find_resync_offset-IsFirst buffer bytes offset o found).0
    ]

module _ {D : Type 0} (F : Double D) (blank : TsPacketInfo) where
  -- Where less than a packet is left, the loop has ended.
  pub packet_loop_stop :
      (rounds : ℕ) (e : Engine D) (i : ℕ) (buffer : Packet) (bytes offset : ℕ)
      → leb (offset + ts_packet_size) bytes ≡ false
      → packet_loop F blank rounds e i buffer bytes offset ≡ (ok, count_partial e i offset bytes)
  unfolding packet_loop
  packet_loop_stop zero e i buffer bytes offset h = refl
  packet_loop_stop (suc n) e i buffer bytes offset h = rw (h, packet_loop) refl

  -- The number of rounds makes no difference once it is that of the bytes left: the loop has ended
  -- by itself, in the branch behind it or with an error of the engine.
  pub packet_loop_enough :
      (n m : ℕ) (e : Engine D) (i : ℕ) (buffer : Packet) (bytes offset : ℕ)
      → bytes ≤ offset + n
      → bytes ≤ offset + m
      → packet_loop F blank n e i buffer bytes offset
        ≡ packet_loop F blank m e i buffer bytes offset
  unfolding packet_loop
  packet_loop_enough zero m e i buffer bytes offset hn hm =
      sym (packet_loop_stop m e i buffer bytes offset (ground arith))
  packet_loop_enough (suc n) zero e i buffer bytes offset hn hm =
      packet_loop_stop (suc n) e i buffer bytes offset (ground arith)
  packet_loop_enough (suc n) (suc m) e i buffer bytes offset hn hm =
      let grows = next_offset_grows buffer bytes offset in
      let o = next_offset offset (find_resync_offset buffer bytes offset) in
      let info = (parse (from_offset buffer offset) blank).1 in
      let taken = take_packet F blank e i (from_offset buffer offset) info in
      let lost =
        packet_loop_enough n m (count_malformed e i (find_resync_offset buffer bytes offset)) i
          buffer bytes o (omega (arith, grows)) (omega (arith, grows)) in
      let next =
        packet_loop_enough n m taken.1 i buffer bytes (offset + ts_packet_size) (omega arith)
          (omega arith) in
      elim (Bool-cases (leb (offset + ts_packet_size) bytes)) [
        | inr short ↦
            packet_loop_stop (suc n) e i buffer bytes offset short
            ∙ sym (packet_loop_stop (suc m) e i buffer bytes offset short)
        | inl full ↦
            rw (full, packet_loop)
              λ j. elim (parse (from_offset buffer offset) blank).0 [
                | false ↦ lost j
                | true ↦ elim taken.0 [ ok ↦ next j | error ↦ (error, taken.1) ]
              ]
      ]

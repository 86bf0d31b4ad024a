-- ===== src/RunLoop/Invariant.antt =====
-- src/main.c: the invariant of the engine over a whole run of the program.
use two_stream_recovery.RunLoop.Room.{
  bytes_of, same-HasRoom, init_next, less_room, push_packet-HasRoom, drain-HasRoom,
  then_flush-HasRoom, total_bytes, HasRoom,
}
use two_stream_recovery.Base.{
  leb, true, ◌==◌, zero, Option, inl, inr, pos, ◌^◌, ◌<◌, Bool-cases, ◌+◌, ◌≤◌, false, arith, suc,
  ℕ, refl, [], ◌∷◌, List,
}
use two_stream_recovery.Engine.Drain.Loop.{drain, flush}
use two_stream_recovery.Engine.Output.Clean.{Status-cases}
use two_stream_recovery.Ts.{Packet, TsPacketInfo, parse, ts_packet_size}
use two_stream_recovery.Stats.{Stats}
use two_stream_recovery.Stats.Double.{Double}
use two_stream_recovery.Engine.State.{Engine, Env, Config, Status, ok, error}
use two_stream_recovery.Engine.Output.{read_clock}
use two_stream_recovery.Engine.Init.{init_with_config}
use two_stream_recovery.Engine.Push.WellFormed.{IsWellFormed, init_with_config-IsWellFormed}
use two_stream_recovery.Datagram.{
  process_datagram, packet_loop, take_packet, count_malformed, count_partial, next_offset,
  find_resync_offset, from_offset,
}
use two_stream_recovery.RunLoop.{
  Incoming, not_ready, would_block, broken, datagram, Selected, interrupted, failed, ready,
  take_input, second_input, drained, ticked, tick_stats, turn, then_on, run_loop, run,
}

module _ {D : Type 0} (F : Double D) (blank : TsPacketInfo) where
  take_packet-HasRoom :
      (e : Engine D) (i : ℕ) (packet : Packet) (info : TsPacketInfo) (n : ℕ)
      → HasRoom e (suc n)
      → HasRoom (take_packet F blank e i packet info).1 n
  unfolding take_packet read_clock
  take_packet-HasRoom e i packet info n h =
      push_packet-HasRoom F _ (pos i) packet info n
        (same-HasRoom e _ (suc n) (refl, refl, refl, refl, refl) h)

  partial-HasRoom :
      (e : Engine D) (i offset bytes n : ℕ)
      → HasRoom e n
      → HasRoom (count_partial e i offset bytes) n
  unfolding count_partial
  partial-HasRoom e i offset bytes n h = same-HasRoom e _ n (ground arith) h

  malformed-HasRoom :
      (e : Engine D) (i : ℕ) (resync : Option ℕ) (n : ℕ)
      → HasRoom e n
      → HasRoom (count_malformed e i resync) n
  unfolding count_malformed
  malformed-HasRoom e i resync n h = same-HasRoom e _ n (refl, refl, refl, refl, refl) h

  -- A round of the loop that has a whole packet: what it goes on with.
  packet_loop-HasRoom :
      (rounds : ℕ) (e : Engine D) (i : ℕ) (buffer : Packet) (bytes offset n : ℕ)
      → HasRoom e (rounds + n)
      → HasRoom (packet_loop F blank rounds e i buffer bytes offset).1 n
  unfolding packet_loop
  packet_loop-HasRoom zero e i buffer bytes offset n h =
      partial-HasRoom e i offset bytes n (less_room e (0 + n) n (omega arith) h)
  packet_loop-HasRoom (suc rounds) e i buffer bytes offset n h =
      let packet = from_offset buffer offset in
      let info = (parse packet blank).1 in
      let resync = find_resync_offset buffer bytes offset in
      let taken = take_packet F blank e i packet info in
      let h' =
        take_packet-HasRoom e i packet info (rounds + n)
          (less_room e (suc rounds + n) (suc (rounds + n)) (omega arith) h) in
      elim (Bool-cases (leb (offset + ts_packet_size) bytes)) [
        | inr short ↦
            rw (short, packet_loop)
              (partial-HasRoom e i offset bytes n (less_room e (suc rounds + n) n (omega arith) h))
        | inl long ↦ elim (Bool-cases (parse packet blank).0) [
          | inr noise ↦
              rw (long, noise, packet_loop)
                (packet_loop-HasRoom rounds (count_malformed e i resync) i buffer bytes
                  (next_offset offset resync) n
                  (malformed-HasRoom e i resync (rounds + n)
                    (less_room e (suc rounds + n) (rounds + n) (omega arith) h)))
          | inl good ↦ elim (Status-cases taken) [
            | inl on ↦
                rw (long, good, on, packet_loop)
                  (packet_loop-HasRoom rounds taken.1 i buffer bytes (offset + ts_packet_size) n h')
            | inr over ↦
                rw (long, good, over, packet_loop)
                  (less_room taken.1 (rounds + n) n (omega arith) h')
          ]
        ]
      ]

  take_input-HasRoom :
      (e : Engine D) (i : ℕ) (input : Incoming) (n : ℕ)
      → HasRoom e (bytes_of input + n)
      → HasRoom (take_input F blank e i input).1 n
  unfolding take_input process_datagram
  take_input-HasRoom e i not_ready n h = less_room e (0 + n) n (omega arith) h
  take_input-HasRoom e i would_block n h = less_room e (0 + n) n (omega arith) h
  take_input-HasRoom e i broken n h = less_room e (0 + n) n (omega arith) h
  take_input-HasRoom e i (datagram buffer bytes) n h = elim (Bool-cases (bytes == 0)) [
    | inl nothing ↦ rw nothing (less_room e (bytes + n) n (omega arith) h)
    | inr some_bytes ↦ rw some_bytes (
        packet_loop-HasRoom bytes _ i buffer bytes 0 n
          (same-HasRoom e _ (bytes + n) (refl, refl, refl, refl, refl) h))
  ]

  second-HasRoom :
      (p : Status × Engine D) (input : Incoming) (n : ℕ)
      → HasRoom p.1 (bytes_of input + n)
      → HasRoom (second_input F blank input p).1 n
  second-HasRoom (error, e) input n h = less_room e (bytes_of input + n) n (omega arith) h
  second-HasRoom (ok, e) input n h = take_input-HasRoom e 1 input n h

  drained-HasRoom : (p : Status × Engine D) (n : ℕ) → HasRoom p.1 n → HasRoom (drained p).1 n
  drained-HasRoom (error, e) n h = h
  drained-HasRoom (ok, e) n h = drain-HasRoom e false n h

  ticked-HasRoom : (p : Status × Engine D) (n : ℕ) → HasRoom p.1 n → HasRoom (ticked p).1 n
  unfolding tick_stats read_clock
  ticked-HasRoom (error, e) n h = h
  ticked-HasRoom (ok, e) n h = same-HasRoom e _ n (refl, refl, refl, refl, refl) h

  turn-HasRoom :
      (e : Engine D) (first second : Incoming) (n : ℕ)
      → HasRoom e (bytes_of first + (bytes_of second + n))
      → HasRoom (turn F blank e first second).1 n
  unfolding turn
  turn-HasRoom e first second n h = ticked-HasRoom _ n (
      drained-HasRoom _ n (
        second-HasRoom (take_input F blank e 0 first) second n
          (take_input-HasRoom e 0 first (bytes_of second + n) h)))

  then_on-HasRoom :
      (p : Status × Engine D) (rest : Engine D → Status × Engine D) (n m : ℕ)
      → m ≤ n
      → HasRoom p.1 n
      → ((e : Engine D) → HasRoom e n → HasRoom (rest e).1 m)
      → HasRoom (then_on p rest).1 m
  then_on-HasRoom (error, e) rest n m le h k = less_room e n m le h
  then_on-HasRoom (ok, e) rest n m le h k = k e h

  flush-HasRoom :
      (f : Engine D → Status) (e : Engine D) (n : ℕ) → HasRoom e n → HasRoom (flush f e).1 n
  unfolding flush
  flush-HasRoom f e n h = then_flush-HasRoom f (drain e true) n (drain-HasRoom e true n h)

  run_loop-HasRoom :
      (f : Engine D → Status) (rounds : List Selected) (e : Engine D)
      → HasRoom e (total_bytes rounds)
      → HasRoom (run_loop F blank f rounds e).1 0
  unfolding run_loop
  run_loop-HasRoom f [] e h = flush-HasRoom f e 0 h
  run_loop-HasRoom f (interrupted ∷ rounds) e h = run_loop-HasRoom f rounds e h
  run_loop-HasRoom f (failed ∷ rounds) e h = less_room e (total_bytes rounds) 0 (omega arith) h
  run_loop-HasRoom f (ready first second ∷ rounds) e h =
      then_on-HasRoom (turn F blank e first second) (run_loop F blank f rounds) (total_bytes rounds)
        0 (omega arith) (turn-HasRoom e first second (total_bytes rounds) h)
        (λ e' h'. run_loop-HasRoom f rounds e' h')

  -- The whole program, from the start of the engine to the flush or the error that ends it: whatever
  -- `select` and the two inputs give, and whatever the configuration, the engine is well formed at
  -- the end, if fewer than 2 ^ 64 bytes were received.
  pub run-IsWellFormed :
      (f : Engine D → Status) (env : Env) (stats : Stats D) (c : Config) (rounds : List Selected)
      → total_bytes rounds < 2 ^ 64
      → IsWellFormed (run F blank f env stats c rounds).1
  unfolding run
  run-IsWellFormed f env stats c rounds small =
      (run_loop-HasRoom f rounds (init_with_config F env stats c) (record {
        formed = init_with_config-IsWellFormed F env stats c;
        room = λ i. omega (arith, small, init_next F env stats c i);
      })).formed

-- ===== src/RunLoop/Room.antt =====
-- src/main.c: the engine with room for so many more packets, and the calls that use it up.
use two_stream_recovery.Base.{
  ◌∙◌, inl, inr, ◌&&◌, pos, leb_ℤ, ◌^◌, pos_part, ◌<◌, Bool-cases, ◌+◌, ◌≤◌, false, arith, suc, ◌≡◌,
  ℤ, ℕ, Bool, refl, [], ◌∷◌, List,
}
use two_stream_recovery.Engine.Drain.Loop.{then_flush, drain}
use two_stream_recovery.Ts.{Packet, TsPacketInfo}
use two_stream_recovery.Stats.{Stats}
use two_stream_recovery.Stats.Double.{Double}
use two_stream_recovery.Engine.State.{Engine, Env, Config, PacketRecord, Status, ok, error}
use two_stream_recovery.Engine.Output.{read_clock, read_wall}
use two_stream_recovery.Engine.Drain.Rounds.{drain-Drains}
use two_stream_recovery.Engine.Init.{init_with_config}
use two_stream_recovery.Engine.Push.{push_packet, receive, enqueue, observe_record, then_drain}
use two_stream_recovery.Engine.Push.Observed.{observe_record-Observes}
use two_stream_recovery.Engine.Push.WellFormed.{
  IsWellFormed, push_packet-IsWellFormed, drain-IsWellFormed,
}
use two_stream_recovery.RunLoop.{
  Incoming, not_ready, would_block, broken, datagram, Selected, interrupted, failed, ready,
}

-- The bytes that an input gives, and those of a run.
abbrev pub bytes_of : Incoming → ℕ
bytes_of not_ready = 0
bytes_of would_block = 0
bytes_of broken = 0
bytes_of (datagram buffer bytes) = bytes

abbrev pub total_bytes : List Selected → ℕ
total_bytes [] = 0
total_bytes (interrupted ∷ rounds) = total_bytes rounds
total_bytes (failed ∷ rounds) = total_bytes rounds
total_bytes (ready first second ∷ rounds) = bytes_of first + (bytes_of second + total_bytes rounds)

pub init_next :
    {D : Type 0} (F : Double D) (env : Env) (stats : Stats D) (c : Config) (i : ℕ)
    → (init_with_config F env stats c).next_stream_index i ≡ 0
unfolding init_with_config
init_next F env stats c i = refl

module _ {D : Type 0} where
  -- The engine is well formed, and both streams may be given `n` more packets.
  pub record HasRoom (e : Engine D) (n : ℕ) : Type 0 where
    pub formed : IsWellFormed e
    pub room : (i : ℕ) → e.next_stream_index i + n < 2 ^ 64

  -- A state that differs in the statistics and in what lies outside the program.
  pub same-HasRoom :
      (e e' : Engine D) (n : ℕ)
      → (e'.history ≡ e.history)
        × (e'.next_stream_index ≡ e.next_stream_index)
        × (e'.primary_queue ≡ e.primary_queue)
        × (e'.secondary_queue ≡ e.secondary_queue)
        × (e'.alignment ≡ e.alignment)
      → HasRoom e n
      → HasRoom e' n
  same-HasRoom e e' n (a, b, c, d, f) h = record {
    formed = record {
      numbered = λ i. rw (a, b) (h.formed.numbered i);
      primary = rw c h.formed.primary;
      secondary = rw d h.formed.secondary;
      confidence = rw f h.formed.confidence;
    };
    room = λ i. rw b (h.room i);
  }

  pub less_room : (e : Engine D) (n m : ℕ) → m ≤ n → HasRoom e n → HasRoom e m
  less_room e n m le h = record { formed = h.formed; room = λ i. omega (arith, h.room i) }

  pub drain-HasRoom :
      (e : Engine D) (force : Bool) (n : ℕ) → HasRoom e n → HasRoom (drain e force).1 n
  drain-HasRoom e force n h = record {
    formed = drain-IsWellFormed e force h.formed;
    room = λ i. rw (drain-Drains e force).rests.next (h.room i);
  }

  receive-next :
      (e : Engine D) (i : ℕ) (packet : Packet) (info : TsPacketInfo) (j : ℕ)
      → (receive e i packet info).1.next_stream_index j ≤ e.next_stream_index j + 1
  unfolding receive read_clock read_wall
  receive-next e i packet info j = ground arith

  enqueue-next :
      (e : Engine D) (i : ℕ) (r : PacketRecord)
      → (enqueue e i r).1.next_stream_index ≡ e.next_stream_index
  unfolding enqueue
  enqueue-next e i r = ground arith

  then_drain-next :
      (p : Status × Engine D) → (then_drain p).1.next_stream_index ≡ p.1.next_stream_index
  then_drain-next (ok, e) = (drain-Drains e false).rests.next
  then_drain-next (error, e) = refl

  pub then_flush-HasRoom :
      (f : Engine D → Status) (p : Status × Engine D) (n : ℕ)
      → HasRoom p.1 n
      → HasRoom (then_flush f p).1 n
  then_flush-HasRoom f (ok, e) n h = h
  then_flush-HasRoom f (error, e) n h = h

module _ {D : Type 0} (F : Double D) where
  push_packet-next :
      (e : Engine D) (i : ℤ) (packet : Packet) (info : TsPacketInfo) (j : ℕ)
      → (push_packet F e i packet info).1.next_stream_index j ≤ e.next_stream_index j + 1
  unfolding push_packet
  push_packet-next e i packet info j = elim (Bool-cases (leb_ℤ (pos 0) i && leb_ℤ i (pos 1))) [
    | inr unknown ↦ rw unknown (omega arith)
    | inl known ↦
        let (r, e1) = receive e (pos_part i) packet info in
        let e2 = observe_record F e1 (pos_part i) r in
        let same =
          then_drain-next (enqueue e2 (pos_part i) r)
          ∙ enqueue-next e2 (pos_part i) r
          ∙ (observe_record-Observes F e1 (pos_part i) r).next in
        rw (known, same) (receive-next e (pos_part i) packet info j)
  ]

  pub push_packet-HasRoom :
      (e : Engine D) (i : ℤ) (packet : Packet) (info : TsPacketInfo) (n : ℕ)
      → HasRoom e (suc n)
      → HasRoom (push_packet F e i packet info).1 n
  push_packet-HasRoom e i packet info n h = record {
    formed =
        push_packet-IsWellFormed F e i packet info (omega (arith, h.room (pos_part i))) h.formed;
    room = λ j. omega (arith, push_packet-next e i packet info j, h.room j);
  }

-- ===== src/Engine/Push/WellFormed.antt =====
-- src/recovery_engine.c: the invariant of the engine. `recovery_engine_init_with_config` sets it up,
-- `recovery_engine_push_packet` and `recovery_engine_drain` keep it.
use two_stream_recovery.Engine.Init.Limits.{init_with_config-IsValid}
use two_stream_recovery.Stats.{Stats}
use two_stream_recovery.Base.{
  pos, leb_ℤ, ◌&&◌, pos_part, arith, ◌≡◌, ℤ, mul64, add64, ltb, false, update, ◌^◌, inr, ◌<◌, inl,
  ◌+◌, ◌==◌, ◌≤◌, Bool-cases, ℕ, Bool, refl,
}
use two_stream_recovery.Engine.Init.{init_with_config}
use two_stream_recovery.Stats.Double.{Double}
use two_stream_recovery.Ts.{TsPacketInfo, Packet}
use two_stream_recovery.Engine.Drain.Loop.{drain}
use two_stream_recovery.Engine.State.{
  Engine, Env, Config, PacketRecord, PacketHistory, Status, ok, error,
}
use two_stream_recovery.Engine.Output.{read_clock, read_wall}
use two_stream_recovery.Engine.History.Find.{IsNumbered, push-IsNumbered, prune-IsNumbered}
use two_stream_recovery.Engine.Drain.Queues.{Drains}
use two_stream_recovery.Engine.Drain.Rounds.{drain-Drains}
use two_stream_recovery.Engine.Push.{
  receive, enqueue, observe_record, then_drain, push_packet, prune, record_of,
}
use two_stream_recovery.Engine.Push.Enqueue.{force_push_refines}
use two_stream_recovery.Engine.Push.Observed.{Observes, observe_record-Observes}
use two_stream_recovery.Engine.History
use two_stream_recovery.Engine.Queue
use two_stream_recovery.Engine.Queue.Refine

updated-IsNumbered :
    (hs : ℕ → PacketHistory) (ns : ℕ → ℕ) (i : ℕ) (h : PacketHistory) (n : ℕ)
    → ((j : ℕ) → IsNumbered (hs j) (ns j))
    → IsNumbered h n
    → (j : ℕ) → IsNumbered (update hs i h j) (update ns i n j)
updated-IsNumbered hs ns i h n all one j = elim (Bool-cases (i == j)) [
  | inl same ↦ rw same one
  | inr other ↦ rw other (all j)
]

module _ {D : Type 0} where
  -- The records of each history are numbered without a gap up to the next index of the stream; both
  -- delay queues are valid; the confidence is a percentage.
  pub record IsWellFormed (e : Engine D) : Type 0 where
    pub numbered : (i : ℕ) → IsNumbered (e.history i) (e.next_stream_index i)
    pub primary : Refine.IsValid e.primary_queue
    pub secondary : Refine.IsValid e.secondary_queue
    pub confidence : e.alignment.confidence ≤ 100

  pub Drains-IsWellFormed : (e e' : Engine D) → Drains e e' → IsWellFormed e → IsWellFormed e'
  Drains-IsWellFormed e e' d w = record {
    numbered = λ i. rw (d.rests.history, d.rests.next) (w.numbered i);
    primary = d.primary.valid w.primary;
    secondary = d.secondary.valid w.secondary;
    confidence = rw d.rests.alignment w.confidence;
  }

  -- `recovery_engine_drain` keeps the invariant, whether it returns 0 or -1.
  pub drain-IsWellFormed :
      (e : Engine D) (force : Bool) → IsWellFormed e → IsWellFormed (drain e force).1
  drain-IsWellFormed e force w = Drains-IsWellFormed e _ (drain-Drains e force) w

  Observes-IsWellFormed : (e e' : Engine D) → Observes e e' → IsWellFormed e → IsWellFormed e'
  Observes-IsWellFormed e e' o w = record {
    numbered = λ i. rw (o.history, o.next) (w.numbered i);
    primary = rw o.primary_queue w.primary;
    secondary = rw o.secondary_queue w.secondary;
    confidence = o.confidence w.confidence;
  }

  enqueue-IsWellFormed :
      (e : Engine D) (i : ℕ) (r : PacketRecord) → IsWellFormed e → IsWellFormed (enqueue e i r).1
  unfolding enqueue
  enqueue-IsWellFormed e i r w = elim (Bool-cases (i == 0)) [
    | inl b ↦ rw b (record {
      numbered = w.numbered;
      primary = (force_push_refines e.primary_queue r w.primary).1;
      secondary = w.secondary;
      confidence = w.confidence;
    })
    | inr b ↦ rw b (record {
      numbered = w.numbered;
      primary = w.primary;
      secondary = (force_push_refines e.secondary_queue r w.secondary).1;
      confidence = w.confidence;
    })
  ]

  prune-history :
      (e : Engine D) (h : PacketHistory) (r : PacketRecord) (next : ℕ)
      → IsNumbered h next
      → IsNumbered (prune e h r) next
  unfolding prune
  prune-history e h r next w =
      elim (Bool-cases (
        ltb 0 (mul64 e.config.history_ms 1_000_000)
        && ltb (mul64 e.config.history_ms 1_000_000) r.arrival_time_ns)) [
          | inl old ↦ rw old (prune-IsNumbered h next _ w)
          | inr young ↦ rw young w
        ]

  receive-IsWellFormed :
      (e : Engine D) (i : ℕ) (packet : Packet) (info : TsPacketInfo)
      → e.next_stream_index i + 1 < 2 ^ 64
      → IsWellFormed e
      → IsWellFormed (receive e i packet info).1
  unfolding receive record_of read_clock read_wall
  receive-IsWellFormed e i packet info small w =
      let index : ℕ = e.next_stream_index i in
      let (wall, e1) = read_wall e in
      let (now, e2) = read_clock e1 in
      let r = record_of e2.stats i index wall now packet info in
      let slot = (History.push (e.history i)).0 in
      let h = History.write (History.push (e.history i)).1 slot r in
      let next : add64 index 1 ≡ index + 1 = omega arith in
      let put : IsNumbered (prune e2 h r) (add64 index 1) = rw next (
        prune-history e2 h r (index + 1)
          (push-IsNumbered (e.history i) index r (w.numbered i) refl)) in
      record {
        numbered =
            updated-IsNumbered e.history e.next_stream_index i (prune e2 h r) (add64 index 1)
              w.numbered put;
        primary = w.primary;
        secondary = w.secondary;
        confidence = w.confidence;
      }

  then_drain-IsWellFormed :
      (p : Status × Engine D) → IsWellFormed p.1 → IsWellFormed (then_drain p).1
  then_drain-IsWellFormed (ok, e) w = drain-IsWellFormed e false w
  then_drain-IsWellFormed (error, e) w = w

module _ {D : Type 0} (F : Double D) where
  -- `recovery_engine_push_packet` keeps the invariant for any packet on any stream, and whatever it
  -- returns, as long as the index of the stream has not come to the end of its 64 bits.
  pub push_packet-IsWellFormed :
      (e : Engine D) (stream_id : ℤ) (packet : Packet) (info : TsPacketInfo)
      → e.next_stream_index (pos_part stream_id) + 1 < 2 ^ 64
      → IsWellFormed e
      → IsWellFormed (push_packet F e stream_id packet info).1
  unfolding push_packet
  push_packet-IsWellFormed e stream_id packet info small w =
      let i : ℕ = pos_part stream_id in
      let (r, e1) = receive e i packet info in
      let e2 = observe_record F e1 i r in
      elim (Bool-cases (leb_ℤ (pos 0) stream_id && leb_ℤ stream_id (pos 1))) [
        | inr unknown ↦ rw unknown w
        | inl known ↦ rw known (
            then_drain-IsWellFormed (enqueue e2 i r) (
              enqueue-IsWellFormed e2 i r (
                Observes-IsWellFormed e1 e2 (observe_record-Observes F e1 i r)
                  (receive-IsWellFormed e i packet info small w))))
      ]

  -- Whatever the configuration, the engine starts in a state that satisfies the invariant.
  pub init_with_config-IsWellFormed :
      (env : Env) (stats : Stats D) (c : Config) → IsWellFormed (init_with_config F env stats c)
  unfolding init_with_config History.init Queue.init
  init_with_config-IsWellFormed env stats c =
      let valid = init_with_config-IsValid F env stats c in
      record {
        numbered = λ i. record { valid = (valid i).0; from = 0; numbered = tt; up_to = refl };
        primary = (valid 0).1;
        secondary = (valid 0).2;
        confidence = omega arith;
      }

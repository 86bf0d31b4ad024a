-- ===== src/Engine/Output/Clean.antt =====
-- `output_record` of src/recovery_engine.c on a record that fits what has been output.
use two_stream_recovery.Base.{refl, false, inr, [], inl, ◌∷◌, true, ◌++◌, ◌⊎◌, Bool, arith, ◌≡◌}
use two_stream_recovery.Engine.Output.{
  send_ts_packet, observe_output, count_output, Bool, output_record, observe_recovered,
}
use two_stream_recovery.Ts.{Packet}
use two_stream_recovery.Engine.State.{Engine, PacketRecord, Status, ok, error}
use two_stream_recovery.Engine.Match.{fits, observe_states}

module _ {D : Type 0} where
  -- What an output may not change.
  pub record Keeps (e e' : Engine D) : Type 0 where
    pub accepts : e'.env.accepts ≡ e.env.accepts
    pub history : e'.history ≡ e.history
    pub config : e'.config ≡ e.config
    pub next : e'.next_stream_index ≡ e.next_stream_index
    pub active : e'.active_output_stream_id ≡ e.active_output_stream_id
    pub alignment : e'.alignment ≡ e.alignment
    pub anchor : e'.last_primary_anchor ≡ e.last_primary_anchor
    pub primary_queue : e'.primary_queue ≡ e.primary_queue
    pub secondary_queue : e'.secondary_queue ≡ e.secondary_queue

  pub Keeps-refl : (e : Engine D) → Keeps e e
  Keeps-refl e = ground arith

  pub Keeps-trans : (a b c : Engine D) → Keeps a b → Keeps b c → Keeps a c
  Keeps-trans a b c h k = ground arith

  -- The packet goes out behind the others and the counters for errors in the output stay.
  pub record Emits (e e' : Engine D) (r : PacketRecord) : Type 0 where
    pub sent : e'.env.sent ≡ e.env.sent ++ (r.packet ∷ [])
    pub states : e'.output_pid_state ≡ observe_states e.output_pid_state r
    pub errors : e'.stats.output_continuity_errors ≡ e.stats.output_continuity_errors
    pub duplicates : e'.stats.output_duplicate_counters ≡ e.stats.output_duplicate_counters
    pub kept : Keeps e e'

  send-Keeps :
      (e : Engine D) (p : Packet)
      → Keeps e (send_ts_packet e p).1
        × ((send_ts_packet e p).1.stats ≡ e.stats)
        × ((send_ts_packet e p).1.output_pid_state ≡ e.output_pid_state)
        × ((send_ts_packet e p).0 ≡ true → (send_ts_packet e p).1.env.sent ≡ e.env.sent ++ (p ∷ []))
        × ((send_ts_packet e p).0 ≡ false → (send_ts_packet e p).1.env.sent ≡ e.env.sent)
  unfolding send_ts_packet
  send-Keeps e p = ground arith

  count_output-Keeps :
      (e : Engine D) (r : PacketRecord)
      → Keeps e (count_output e r)
        × ((count_output e r).env ≡ e.env)
        × ((count_output e r).output_pid_state ≡ e.output_pid_state)
        × ((count_output e r).stats.output_continuity_errors ≡ e.stats.output_continuity_errors)
        × ((count_output e r).stats.output_duplicate_counters ≡ e.stats.output_duplicate_counters)
  unfolding count_output
  count_output-Keeps e r = ground arith

  observe_output-Keeps :
      (e : Engine D) (r : PacketRecord)
      → Keeps e (observe_output e r) × ((observe_output e r).env ≡ e.env)
  unfolding observe_output
  observe_output-Keeps e r = ground arith

  -- Of a record that fits the output states no error is counted.
  observe_output-fits :
      (e : Engine D) (r : PacketRecord)
      → fits e.output_pid_state r ≡ true
      → ((observe_output e r).output_pid_state ≡ observe_states e.output_pid_state r)
        × ((observe_output e r).stats.output_continuity_errors ≡ e.stats.output_continuity_errors)
        × ((observe_output e r).stats.output_duplicate_counters ≡ e.stats.output_duplicate_counters)
  unfolding observe_output fits observe_states
  observe_output-fits e r f = ground arith

  pub output_record-Keeps : (e : Engine D) (r : PacketRecord) → Keeps e (output_record e r).1
  unfolding output_record
  output_record-Keeps e r =
      let e1 = (send_ts_packet e r.packet).1 in
      ground (
        arith,
        send-Keeps e r.packet,
        count_output-Keeps e1 r,
        observe_output-Keeps (count_output e1 r) r,
      )

  -- A record that fits the output states and that the sink takes is sent behind the earlier packets;
  -- it raises neither the count of continuity errors nor that of duplicates in the output, and the
  -- output states change as in the rehearsal on a copy of them (`observe_output_states`).
  pub output_record-Emits :
      (e : Engine D) (r : PacketRecord)
      → fits e.output_pid_state r ≡ true
      → (output_record e r).0 ≡ ok
      → Emits e (output_record e r).1 r
  unfolding output_record
  output_record-Emits e r f h =
      let e1 = (send_ts_packet e r.packet).1 in
      let e2 = count_output e1 r in
      ground (
        arith,
        send-Keeps e r.packet,
        count_output-Keeps e1 r,
        observe_output-Keeps e2 r,
        observe_output-fits e2 r,
      )

  -- A sink that refuses the packet leaves everything but the count of the offers as it was.
  pub output_record-refused :
      (e : Engine D) (r : PacketRecord)
      → (output_record e r).0 ≡ error
      → ((output_record e r).1.env.sent ≡ e.env.sent) × ((output_record e r).1.stats ≡ e.stats)
  unfolding output_record
  output_record-refused e r h = ground (arith, send-Keeps e r.packet)

  pub observe_recovered-Keeps :
      (e : Engine D) (b : Bool)
      → Keeps e (observe_recovered e b)
        × ((observe_recovered e b).env.sent ≡ e.env.sent)
        × ((observe_recovered e b).output_pid_state ≡ e.output_pid_state)
        × ((observe_recovered e b).stats.output_continuity_errors
            ≡ e.stats.output_continuity_errors)
        × ((observe_recovered e b).stats.output_duplicate_counters
            ≡ e.stats.output_duplicate_counters)
  unfolding observe_recovered
  observe_recovered-Keeps e b = ground arith

  pub Status-cases : (p : Status × Engine D) → (p.0 ≡ ok) ⊎ (p.0 ≡ error)
  Status-cases (ok, e) = inl refl
  Status-cases (error, e) = inr refl

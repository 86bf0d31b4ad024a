-- ===== src/Engine/Recovery/Rejects.antt =====
-- src/recovery_engine.c: the output of recovered packets raises no reject counter.
use two_stream_recovery.Base.{
  ◌==◌, ◌%◌, Bool-cases, Option-cases, inl, inr, zero, suc, ◌+◌, [], ◌∷◌, List, ◌∙◌, add64, refl,
  arith, ℕ, ◌≡◌, Bool,
}
use two_stream_recovery.Engine.State.{OutputPidState, Engine, PacketRecord, Status, ok, error}
use two_stream_recovery.Stats.{Stats}
use two_stream_recovery.Engine.History.{find_record}
use two_stream_recovery.Engine.Output.{
  output_record, observe_recovered, send_ts_packet, observe_output, count_discontinuity,
  count_output, read_wall,
}
use two_stream_recovery.Stats.Observe.{observe_recovery, observe_output_datagram}
use two_stream_recovery.Engine.Output.Clean.{Status-cases}
use two_stream_recovery.Engine.Recovery.{insert_all, insert_range}

module _ {D : Type 0} where
  -- The reject counters are those from before.
  abbrev pub SameRejects : Engine D → Engine D → Type 0
  SameRejects e e' = e'.stats.recovery_rejects ≡ e.stats.recovery_rejects

  count_discontinuity-rejects :
      (s : Stats D) (state : OutputPidState) (r : PacketRecord)
      → (count_discontinuity s state r).recovery_rejects ≡ s.recovery_rejects
  unfolding count_discontinuity
  count_discontinuity-rejects s state r = ground arith

  observe_output-SameRejects :
      (e : Engine D) (r : PacketRecord) → SameRejects e (observe_output e r)
  unfolding observe_output
  observe_output-SameRejects e r = elim (Bool-cases r.is_null) [
    | inl null ↦ rw (null, observe_output) refl
    | inr content ↦
        rw (content, observe_output)
          (count_discontinuity-rejects e.stats (e.output_pid_state r.pid) r)
  ]

  count_output-SameRejects : (e : Engine D) (r : PacketRecord) → SameRejects e (count_output e r)
  unfolding count_output observe_output_datagram
  count_output-SameRejects e r = elim (Bool-cases (add64 e.stats.output_packets 1 % 7 == 0)) [
    | inl due ↦ rw (due, count_output) refl
    | inr early ↦ rw (early, count_output) refl
  ]

  send_ts_packet-SameRejects :
      (e : Engine D) (r : PacketRecord) → SameRejects e (send_ts_packet e r.packet).1
  unfolding send_ts_packet
  send_ts_packet-SameRejects e r = refl

  output_record-SameRejects :
      (e : Engine D) (r : PacketRecord) → SameRejects e (output_record e r).1
  unfolding output_record
  output_record-SameRejects e r =
      let e' = (send_ts_packet e r.packet).1 in
      elim (Bool-cases (send_ts_packet e r.packet).0) [
        | inl taken ↦
            rw (taken, output_record)
              (observe_output-SameRejects (count_output e' r) r
                ∙ count_output-SameRejects e' r
                ∙ send_ts_packet-SameRejects e r)
        | inr refused ↦ rw (refused, output_record) (send_ts_packet-SameRejects e r)
      ]

  observe_recovered-SameRejects : (e : Engine D) (b : Bool) → SameRejects e (observe_recovered e b)
  unfolding observe_recovered observe_recovery read_wall
  observe_recovered-SameRejects e b = refl

  step-SameRejects :
      (e : Engine D) (c : PacketRecord) (b : Bool) (rest : Engine D → Status × Engine D)
      → ((e' : Engine D) → SameRejects e' (rest e').1)
      → SameRejects e (
          (elim (output_record e c).0 as (λ x. Status × Engine D) [
            | error ↦ (error, (output_record e c).1)
            | ok ↦ rest (observe_recovered (output_record e c).1 b)
          ]).1)
  step-SameRejects e c b rest h = elim (Status-cases (output_record e c)) [
    | inl sent ↦ rw sent (
        h (observe_recovered (output_record e c).1 b)
        ∙ observe_recovered-SameRejects (output_record e c).1 b
        ∙ output_record-SameRejects e c)
    | inr refused ↦ rw refused (output_record-SameRejects e c)
  ]

  pub insert_all-SameRejects :
      (counts_as : PacketRecord → Bool) (e : Engine D) (cs : List PacketRecord)
      → SameRejects e (insert_all counts_as e cs).1
  unfolding insert_all
  insert_all-SameRejects counts_as e [] = refl
  insert_all-SameRejects counts_as e (c ∷ cs) =
      step-SameRejects e c (counts_as c) (λ e'. insert_all counts_as e' cs)
        (λ e'. insert_all-SameRejects counts_as e' cs)

  pub insert_range-SameRejects :
      (counts_as : PacketRecord → Bool) (n : ℕ) (e : Engine D) (first i : ℕ)
      → SameRejects e (insert_range counts_as n e first i).1
  unfolding insert_range
  insert_range-SameRejects counts_as zero e first i = refl
  insert_range-SameRejects counts_as (suc n) e first i =
      elim (Option-cases (find_record (e.history 1) (add64 first i))) [
        | inl gone ↦ rw (gone, insert_range) refl
        | inr (c, there) ↦
            rw (there, insert_range)
              (step-SameRejects e c (counts_as c) (λ e'. insert_range counts_as n e' first (i + 1))
                (λ e'. insert_range-SameRejects counts_as n e' first (i + 1)))
      ]

-- ===== src/Engine/Recovery/Stuck.antt =====
-- src/recovery_engine.c: a recovery that returns -1 does so because the sink refused a packet.
use two_stream_recovery.Base.{
  Bool-cases, inl, inr, some, zero, suc, ◌+◌, [], ◌∷◌, List, ◌∙◌, ap, add64, false, refl, ℕ, ◌≡◌,
  Bool,
}
use two_stream_recovery.Engine.State.{Engine, PacketHistory, PacketRecord, Status, ok, error}
use two_stream_recovery.Engine.History.{find_record}
use two_stream_recovery.Engine.Output.{output_record, observe_recovered, send_ts_packet}
use two_stream_recovery.Engine.Output.Clean.{
  Keeps-trans, output_record-Keeps, observe_recovered-Keeps, Status-cases,
}
use two_stream_recovery.Engine.Recovery.{insert_all, insert_range}
use two_stream_recovery.Engine.Recovery.There.{AllThere}

module _ {D : Type 0} where
  -- The last packet that was offered to the sink was refused.
  pub record IsStuck (e : Engine D) : Type 0 where
    pub offer : ℕ
    pub last : e.env.offers ≡ offer + 1
    pub refused : e.env.accepts offer ≡ false

  output_record-IsStuck :
      (e : Engine D) (r : PacketRecord)
      → (output_record e r).0 ≡ error
      → IsStuck (output_record e r).1
  unfolding output_record send_ts_packet
  output_record-IsStuck e r h = elim (Bool-cases (e.env.accepts e.env.offers)) [
    | inl taken ↦ cc (rw (taken, output_record) at h)
    | inr kept ↦
        rw (kept, output_record) (record { offer = e.env.offers; last = refl; refused = kept })
  ]

  step-IsStuck :
      (e : Engine D) (c : PacketRecord) (b : Bool) (rest : Engine D → Status × Engine D)
      → ((rest (observe_recovered (output_record e c).1 b)).0 ≡ error
          → IsStuck (rest (observe_recovered (output_record e c).1 b)).1)
      → (elim (output_record e c).0 as (λ x. Status × Engine D) [
        | error ↦ (error, (output_record e c).1)
        | ok ↦ rest (observe_recovered (output_record e c).1 b)
      ]).0
        ≡ error
      → IsStuck (
          (elim (output_record e c).0 as (λ x. Status × Engine D) [
            | error ↦ (error, (output_record e c).1)
            | ok ↦ rest (observe_recovered (output_record e c).1 b)
          ]).1)
  step-IsStuck e c b rest k h = elim (Status-cases (output_record e c)) [
    | inl sent ↦ rw sent (k (rw sent at h))
    | inr refused ↦ rw refused (output_record-IsStuck e c refused)
  ]

  pub insert_all-IsStuck :
      (counts_as : PacketRecord → Bool) (e : Engine D) (cs : List PacketRecord)
      → (insert_all counts_as e cs).0 ≡ error
      → IsStuck (insert_all counts_as e cs).1
  unfolding insert_all
  insert_all-IsStuck counts_as e [] h = cc
  insert_all-IsStuck counts_as e (c ∷ cs) h =
      step-IsStuck e c (counts_as c) (λ e'. insert_all counts_as e' cs)
        (λ h'.
          insert_all-IsStuck counts_as (observe_recovered (output_record e c).1 (counts_as c)) cs
            h')
        h

  pub insert_range-IsStuck :
      (counts_as : PacketRecord → Bool) (n : ℕ) (e : Engine D) (h : PacketHistory) (first i : ℕ)
      → e.history 1 ≡ h
      → AllThere n h first i
      → (insert_range counts_as n e first i).0 ≡ error
      → IsStuck (insert_range counts_as n e first i).1
  unfolding insert_range
  insert_range-IsStuck counts_as zero e h first i same there f = cc
  insert_range-IsStuck counts_as (suc n) e h first i same ((c, found), there) f =
      let found' : find_record (e.history 1) (add64 first i) ≡ some c = rw same found in
      let e' = observe_recovered (output_record e c).1 (counts_as c) in
      let kept =
        Keeps-trans e _ e' (output_record-Keeps e c)
          (observe_recovered-Keeps (output_record e c).1 (counts_as c)).0 in
      let f' = rw (found', insert_range) at f in
      rw (found', insert_range)
        (step-IsStuck e c (counts_as c) (λ d. insert_range counts_as n d first (i + 1))
          (λ g.
            insert_range-IsStuck counts_as n e' h first (i + 1) (ap (λ s. s 1) kept.history ∙ same)
              there g)
          f')

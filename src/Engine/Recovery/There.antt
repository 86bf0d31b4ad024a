-- ===== src/Engine/Recovery/There.antt =====
-- src/recovery_engine.c: the records that a plan to insert a range of the secondary history has seen are
-- there when they are inserted.
use two_stream_recovery.Engine.Output.{Reason, output_record, observe_recovered, send_ts_packet}
use two_stream_recovery.Base.{
  inl, false, inr, ltb, Bool-cases, none, Option, zero, ◌+◌, some, add64, suc, refl, ◌∙◌, arith,
  true, ℕ, ◌≡◌, Bool, ap,
}
use two_stream_recovery.Engine.Recovery.NullRegion.{
  null_range, null_too_large, null_at, clean_null_range, null_plan, clean_null_at,
}
use two_stream_recovery.Engine.Recovery.Mixed.{
  Verdict, misfit, mixed_head, first_candidate, mixed_tail, Scan, scan_candidate, scan_range,
  mixed_plan,
}
use two_stream_recovery.Engine.Recovery.{
  refuse, check_ends, prefix_matches, missing_packets, Gap, insert_range,
}
use two_stream_recovery.Base.Step.{
  Step, on_stop-eq-go, ◌>>◌, >>-eq-go, go, stop, >>=-eq-go, on_stop, guard,
}
use two_stream_recovery.Stats.{RejectReason}
use two_stream_recovery.Engine.Match.{fits}
use two_stream_recovery.Engine.History.{find_record}
use two_stream_recovery.Engine.State.{PacketHistory, Engine, PacketRecord, ok}
use two_stream_recovery.Engine.Output.Clean.{
  Keeps, Keeps-trans, output_record-Keeps, observe_recovered-Keeps,
}

module _ {D : Type 0} where
  -- The sink takes every packet that is offered to it.
  abbrev pub TakesAll : Engine D → Type 0
  TakesAll e = (n : ℕ) → e.env.accepts n ≡ true

  pub TakesAll-after : (e e' : Engine D) → Keeps e e' → TakesAll e → TakesAll e'
  TakesAll-after e e' k t n = ap (λ f. f n) k.accepts ∙ t n

  pub output_record-ok : (e : Engine D) (r : PacketRecord) → TakesAll e → (output_record e r).0 ≡ ok
  unfolding output_record send_ts_packet
  output_record-ok e r t = ground (arith, t e.env.offers)

-- The packets of a range, from the `i`-th on, are all in the history.
abbrev pub AllThere : ℕ → PacketHistory → ℕ → ℕ → Type 0
AllThere zero h first i = Unit {0}
AllThere (suc n) h first i =
    ((c : PacketRecord) × (find_record h (add64 first i) ≡ some c)) × AllThere n h first (i + 1)

scan_candidate-there :
    (s : Scan) (found : Option PacketRecord) {s' : Scan}
    → scan_candidate s found ≡ go s'
    → (c : PacketRecord) × (found ≡ some c)
unfolding scan_candidate
scan_candidate-there s none h = cc
scan_candidate-there s (some c) h = (c, refl)

clean_null_at-there :
    (found : Option PacketRecord) {u : Unit {0}}
    → clean_null_at found ≡ go u
    → (c : PacketRecord) × (found ≡ some c)
unfolding clean_null_at null_at
clean_null_at-there none h = cc
clean_null_at-there (some c) h = (c, refl)

module _ {D : Type 0} where
  scan_range-AllThere :
      (n : ℕ) (e : Engine D) (first i : ℕ) (s s' : Scan)
      → scan_range n e first i s ≡ go s'
      → AllThere n (e.history 1) first i
  unfolding scan_range
  scan_range-AllThere zero e first i s s' h = tt
  scan_range-AllThere (suc n) e first i s s' h =
      let found = find_record (e.history 1) (add64 first i) in
      let (s1, one, rest) =
        >>=-eq-go (scan_candidate s found) (λ x. scan_range n e first (i + 1) x) h in
      (scan_candidate-there s found one, scan_range-AllThere n e first (i + 1) s1 s' rest)

  clean_null_range-AllThere :
      (n : ℕ) (e : Engine D) (first i : ℕ) (u : Unit {0})
      → clean_null_range n e first i ≡ go u
      → AllThere n (e.history 1) first i
  unfolding clean_null_range
  clean_null_range-AllThere zero e first i u h = tt
  clean_null_range-AllThere (suc n) e first i u h =
      let found = find_record (e.history 1) (add64 first i) in
      let (v, one, rest) =
        >>=-eq-go (clean_null_at found) (λ x. clean_null_range n e first (i + 1)) h in
      (clean_null_at-there found one, clean_null_range-AllThere n e first (i + 1) u rest)

  pub insert_range-ok :
      (counts_as : PacketRecord → Bool) (n : ℕ) (e : Engine D) (h : PacketHistory) (first i : ℕ)
      → e.history 1 ≡ h
      → AllThere n h first i
      → TakesAll e
      → (insert_range counts_as n e first i).0 ≡ ok
  unfolding insert_range
  insert_range-ok counts_as zero e h first i same there t = refl
  insert_range-ok counts_as (suc n) e h first i same ((c, found), there) t =
      let found' : find_record (e.history 1) (add64 first i) ≡ some c = rw same found in
      let e' = observe_recovered (output_record e c).1 (counts_as c) in
      let kept =
        Keeps-trans e _ e' (output_record-Keeps e c)
          (observe_recovered-Keeps (output_record e c).1 (counts_as c)).0 in
      rw (found', output_record-ok e c t, insert_range)
        (insert_range-ok counts_as n e' h first (i + 1) (ap (λ f. f 1) kept.history ∙ same) there
          (TakesAll-after e e' kept t))

  -- A plan to insert a mixed gap has seen every candidate.
  pub mixed_plan-AllThere :
      (e : Engine D) (primary : PacketRecord) (g : Gap) (u : Unit {0})
      → mixed_plan e primary g ≡ go u
      → AllThere (missing_packets g) (e.history 1) (first_candidate e g) 0
  unfolding mixed_plan mixed_tail
  mixed_plan-AllThere e primary g u h =
      let prefix = guard (prefix_matches g.primary_between e 0) none in
      let seen =
        >>-eq-go prefix (mixed_tail e primary g)
          (>>-eq-go (on_stop some (mixed_head e primary g)) (prefix >> mixed_tail e primary g) h) in
      let start : Scan = record { states = e.output_pid_state; saw_content = false } in
      let scan = scan_range (missing_packets g) e (first_candidate e g) 0 start in
      let (s, scanned, _) =
        >>=-eq-go (on_stop some scan)
          (λ (s : Scan).
            guard s.saw_content none >> guard (fits s.states primary) (some (misfit e primary g)))
          seen in
      scan_range-AllThere (missing_packets g) e (first_candidate e g) 0 start s
        (on_stop-eq-go some scan scanned)

  pub null_plan-AllThere :
      (e : Engine D) (primary : PacketRecord) (g : Gap) (u : Unit {0})
      → null_plan e primary g ≡ go u
      → AllThere (missing_packets g) (e.history 1) (first_candidate e g) 0
  unfolding null_plan null_too_large
  null_plan-AllThere e primary g u h =
      elim (Bool-cases (ltb e.config.max_content_burst_packets (missing_packets g))) [
        | inr within ↦
            let rest = clean_null_range (missing_packets g) e (first_candidate e g) 0 in
            clean_null_range-AllThere (missing_packets g) e (first_candidate e g) 0 u
              (>>-eq-go (on_stop some (check_ends e primary g)) rest (rw (within, null_plan) at h))
        | inl large ↦
            let refusal : Step Verdict (Unit {0}) =
              stop (some (refuse RejectReason.burst_too_large Reason.null_burst_too_large)) in
            cc (
              >>-eq-go
                (null_range (add64 e.config.max_content_burst_packets 1) e (first_candidate e g) 0)
                refusal (rw (large, null_plan) at h))
      ]

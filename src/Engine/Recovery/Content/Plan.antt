-- ===== src/Engine/Recovery/Content/Plan.antt =====
-- What `try_recover_exact_content_gap` of src/recovery_engine.c is ready to insert when all of its
-- checks have passed.
use two_stream_recovery.Base.{
  ltb, ◌||◌, ap, length, not, ◌≤◌, ◌∙◌, ◌-◌, Option-cases, none, inr, if◌then◌else◌, [], inl, ◌%◌,
  ◌+◌, ◌==◌, zero, suc, arith, Bool-cases, add64, true, some, ◌∷◌, false, List, ◌≡◌, ℕ, Option,
  refl,
}
use two_stream_recovery.Base.Step.{
  go-injective, go, ◌>>◌, guard, present, >>=-eq-go, guard-eq-go, present-eq-go,
}
use two_stream_recovery.Stats.{RejectReason}
use two_stream_recovery.Engine.State.{Engine, PacketRecord, OutputPidState}
use two_stream_recovery.Engine.History.{find_record}
use two_stream_recovery.Engine.Match.{fits}
use two_stream_recovery.Engine.Output.{Reason}
use two_stream_recovery.Engine.Recovery.{refuse, Gap, missing_packets, check_ends, fit_all}
use two_stream_recovery.Engine.Recovery.Content.{
  Missing, wanted, scan_counter, fallback, first_index, pick, pick_all, check_order, content_plan,
}

-- The checks on a candidate hand it on.
last_check :
    (x c : PacketRecord) (pid k : ℕ)
    → (do
      guard (not x.is_null) (refuse RejectReason.wrong_pid Reason.null_candidate)
      guard (not x.transport_error) (refuse RejectReason.tei Reason.secondary_tei)
      guard
          (not x.discontinuity_indicator)
          (refuse RejectReason.discontinuity Reason.secondary_discontinuity)
      guard (x.pid == pid) (refuse RejectReason.wrong_pid Reason.wrong_pid)
      guard
          (not (not x.has_payload || not (x.continuity_counter == k)))
          (refuse RejectReason.wrong_counter Reason.wrong_counter)
      go x)
      ≡ go c
    → x ≡ c
last_check x c pid k h = ground arith

check_order-eq-go :
    (states : ℕ → OutputPidState) (primary : PacketRecord) (cs : List PacketRecord) {u : Unit {0}}
    → check_order states primary cs ≡ go u
    → (after : ℕ → OutputPidState) × (fit_all states cs ≡ some after) × (fits after primary ≡ true)
unfolding check_order
check_order-eq-go states primary cs h =
    let r = >>=-eq-go (present (fit_all states cs) _) _ h in
    (r.0, present-eq-go (fit_all states cs) _ r.1, guard-eq-go (fits r.0 primary) _ r.2)

module _ {D : Type 0} where
  -- The record stands in the secondary history.
  abbrev pub IsHeld : Engine D → PacketRecord → Type 0
  IsHeld e c = (i : ℕ) × (find_record (e.history 1) i ≡ some c)

  -- A packet with a payload and without error flags, of the PID and the counter asked for.
  pub record IsMissing (e : Engine D) (pid k : ℕ) (c : PacketRecord) : Type 0 where
    pub held : IsHeld e c
    pub content : c.is_null ≡ false
    pub sound : c.transport_error ≡ false
    pub continuous : c.discontinuity_indicator ≡ false
    pub payload : c.has_payload ≡ true
    pub of_pid : c.pid ≡ pid
    pub counter : c.continuity_counter ≡ k

  -- The packets of the counters that follow `previous`, one for each from the `i`-th on.
  abbrev pub AreMissing : Engine D → ℕ → ℕ → ℕ → List PacketRecord → Type 0
  AreMissing e pid previous i [] = Unit
  AreMissing e pid previous i (c ∷ cs) =
      IsMissing e pid (add64 (previous + 1) i % 16) c × AreMissing e pid previous (i + 1) cs

  wanted-IsHeld :
      (e : Engine D) (pid k index : ℕ) {p : PacketRecord}
      → wanted e pid k index ≡ some p
      → find_record (e.history 1) index ≡ some p
  unfolding wanted
  wanted-IsHeld e pid k index h = ground arith

  scan_counter-IsHeld :
      (rounds : ℕ) (e : Engine D) (pid k index : ℕ) (found : Option PacketRecord) {p : PacketRecord}
      → ((q : PacketRecord) → found ≡ some q → IsHeld e q)
      → scan_counter rounds e pid k index found ≡ go (some p)
      → IsHeld e p
  unfolding scan_counter
  scan_counter-IsHeld zero e pid k index found h s = h _ (go-injective s)
  scan_counter-IsHeld (suc n) e pid k index found h s = elim (Option-cases (wanted e pid k index)) [
    | inl miss ↦ scan_counter-IsHeld n e pid k (index + 1) found h (rw (miss, scan_counter) at s)
    | inr (p, hit) ↦ elim (Option-cases found) [
      | inr (q, second) ↦ cc (rw (hit, second, scan_counter) at s)
      | inl first ↦
          scan_counter-IsHeld n e pid k (index + 1) (some p)
            (λ q same. (index, wanted-IsHeld e pid k index hit ∙ same))
            (rw (hit, first, scan_counter) at s)
    ]
  ]

  fallback-IsHeld :
      (e : Engine D) (g : Gap) (found : Option PacketRecord) (c : PacketRecord)
      → ((q : PacketRecord) → found ≡ some q → IsHeld e q)
      → fallback e g found ≡ some c
      → IsHeld e c
  unfolding fallback
  fallback-IsHeld e g (some p) c h s = h c s
  fallback-IsHeld e g none c h s = elim (Bool-cases (missing_packets g == 1)) [
    | inl one ↦ (_, rw (one, if◌then◌else◌) at s)
    | inr more ↦ cc (rw (more, if◌then◌else◌) at s)
  ]

  pick-IsHeld :
      (e : Engine D) (primary : PacketRecord) (g : Gap) (k : ℕ) (c : PacketRecord)
      → pick e primary g k ≡ go c
      → IsHeld e c
  unfolding pick
  pick-IsHeld e primary g k c h =
      let first = first_index e g in
      let rounds = g.after.stream_index - first in
      let scanned = >>=-eq-go (scan_counter rounds e primary.pid k first none) _ h in
      let chosen =
        >>=-eq-go
          (present (fallback e g scanned.0)
            (refuse RejectReason.missing_candidate Reason.missing_candidate))
          _ scanned.2 in
      let same : chosen.0 ≡ c = last_check chosen.0 c primary.pid k chosen.2 in
      let there =
        fallback-IsHeld e g scanned.0 chosen.0
          (λ q found.
            scan_counter-IsHeld rounds e primary.pid k first none (λ r empty. cc)
              (scanned.1 ∙ ap go found))
          (present-eq-go (fallback e g scanned.0) _ chosen.1) in
      (there.0, there.1 ∙ ap some same)

  pick-IsMissing :
      (e : Engine D) (primary : PacketRecord) (g : Gap) (k : ℕ) (c : PacketRecord)
      → pick e primary g k ≡ go c
      → IsMissing e primary.pid k c
  unfolding pick
  pick-IsMissing e primary g k c h =
      let held = pick-IsHeld e primary g k c h in
      record {
        held = held;
        content = ground arith;
        sound = ground arith;
        continuous = ground arith;
        payload = ground arith;
        of_pid = ground arith;
        counter = ground arith;
      }

  pub pick_all-AreMissing :
      (rounds : ℕ) (e : Engine D) (primary : PacketRecord) (g : Gap) (previous i : ℕ)
      (cs : List PacketRecord)
      → pick_all rounds e primary g previous i ≡ go cs
      → AreMissing e primary.pid previous i cs × (length cs ≡ rounds)
  unfolding pick_all
  pick_all-AreMissing zero e primary g previous i cs h = rw (← go-injective h) (tt, refl)
  pick_all-AreMissing (suc n) e primary g previous i cs h =
      let k = add64 (previous + 1) i % 16 in
      let first = >>=-eq-go (pick e primary g k) _ h in
      let others = >>=-eq-go (pick_all n e primary g previous (i + 1)) _ first.2 in
      let rest = pick_all-AreMissing n e primary g previous (i + 1) others.0 others.1 in
      rw (← go-injective others.2)
        ((pick-IsMissing e primary g k first.0 first.1, rest.0), ap suc rest.1)

  -- What a plan that holds says of the packets that it names.
  pub record IsPlan (e : Engine D) (primary : PacketRecord) (m : Missing) (cs : List PacketRecord)
      : Type 0 where
    pub missing : AreMissing e primary.pid m.previous_cc 0 cs
    pub count : length cs ≡ m.count
    pub within : length cs ≤ e.config.max_content_burst_packets
    pub trusted : e.config.min_alignment_confidence ≤ e.alignment.confidence
    pub states : ℕ → OutputPidState
    pub rehearsed : fit_all e.output_pid_state cs ≡ some states
    pub closes : fits states primary ≡ true

  check_ends-trusted :
      (e : Engine D) (primary : PacketRecord) (g : Gap) {u : Unit {0}}
      → check_ends e primary g ≡ go u
      → e.config.min_alignment_confidence ≤ e.alignment.confidence
  unfolding check_ends
  check_ends-trusted e primary g h = ground arith

  pub content_plan-IsPlan :
      (e : Engine D) (primary : PacketRecord) (g : Gap) (m : Missing) (cs : List PacketRecord)
      → content_plan e primary g m ≡ go cs
      → IsPlan e primary m cs
  unfolding content_plan
  content_plan-IsPlan e primary g m cs h =
      let burst =
        >>=-eq-go
          (guard (not (ltb e.config.max_content_burst_packets m.count))
            (refuse RejectReason.burst_too_large Reason.burst_too_large))
          _ h in
      let ends = >>=-eq-go (check_ends e primary g) _ burst.2 in
      let picked = >>=-eq-go (pick_all m.count e primary g m.previous_cc 0) _ ends.2 in
      let ordered = >>=-eq-go (check_order e.output_pid_state primary picked.0) _ picked.2 in
      let same : picked.0 ≡ cs = go-injective ordered.2 in
      let order = check_order-eq-go e.output_pid_state primary picked.0 ordered.1 in
      let all = pick_all-AreMissing m.count e primary g m.previous_cc 0 picked.0 picked.1 in
      let small = guard-eq-go (not (ltb e.config.max_content_burst_packets m.count)) _ burst.1 in
      rw (← same) (record {
        missing = all.0;
        count = all.1;
        within = ground (arith, all.1, small);
        trusted = check_ends-trusted e primary g ends.1;
        states = order.0;
        rehearsed = order.1;
        closes = order.2;
      })

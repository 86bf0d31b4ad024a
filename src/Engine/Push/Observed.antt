-- ===== src/Engine/Push/Observed.antt =====
-- src/recovery_engine.c: what the observations of a received packet keep.
use two_stream_recovery.Base.{
  refl, sub64, pos, ◌%◌, inl, ltb, none, false, inr, Option-cases, some, ◌&&◌, true, leb, Option,
  Bool-cases, ◌==◌, ◌||◌, if◌then◌else◌, ◌≤◌, arith, not, ◌≡◌, ℕ, Bool,
}
use two_stream_recovery.Engine.State.{PcrPidModel, Engine, PacketRecord}
use two_stream_recovery.Engine.Alignment.{
  wide_match, narrow_match, lose_confidence, miss, update_alignment, align_on_match, align_on,
}
use two_stream_recovery.Engine.Pcr.{
  find_matching_pcr, update_pcr_timing, observe_delay, observe_reference, observe_bitrate,
  pid_model_for, set_model, with_reference, slot_loop, max_pcr_pids, known, fresh, full, zero_model,
}
use two_stream_recovery.Engine.Match.{is_informative, exact_match}
use two_stream_recovery.Stats.Double.{Double}
use two_stream_recovery.Engine.Input.{observe_input_path_gap}
use two_stream_recovery.Engine.Push.{observe_record}

module _ {D : Type 0} where
  -- The observations change no history, number or queue, and leave the confidence within its range.
  pub record Observes (e e' : Engine D) : Type 0 where
    pub history : e'.history ≡ e.history
    pub config : e'.config ≡ e.config
    pub next : e'.next_stream_index ≡ e.next_stream_index
    pub primary_queue : e'.primary_queue ≡ e.primary_queue
    pub secondary_queue : e'.secondary_queue ≡ e.secondary_queue
    pub confidence : e.alignment.confidence ≤ 100 → e'.alignment.confidence ≤ 100

  pub Observes-refl : (e : Engine D) → Observes e e
  Observes-refl e = ground arith

  pub Observes-trans : (a b c : Engine D) → Observes a b → Observes b c → Observes a c
  Observes-trans a b c h k = ground arith

  if-Observes :
      (e : Engine D) (b : Bool) (s t : Engine D)
      → Observes e s
      → Observes e t
      → Observes e (if b then s else t)
  if-Observes e true s t h k = h
  if-Observes e false s t h k = k

  input_path_gap-Observes :
      (e : Engine D) (stream_id : ℕ) (r : PacketRecord)
      → Observes e (observe_input_path_gap e stream_id r)
  unfolding observe_input_path_gap
  input_path_gap-Observes e stream_id r =
      if-Observes e (r.is_null || r.transport_error || r.discontinuity_indicator || leb 8192 r.pid)
        _ _ (Observes-refl e) (ground arith)

module _ {D : Type 0} (F : Double D) where
  align_on_match-Observes :
      (e : Engine D) (stream_id : ℕ) (r m : PacketRecord)
      → Observes e (align_on_match F e stream_id r m)
  unfolding align_on_match align_on
  align_on_match-Observes e stream_id r m =
      if-Observes e (stream_id == 0) _ _ (ground arith) (ground arith)

  lose_confidence-Observes : (e : Engine D) → Observes e (lose_confidence e)
  unfolding lose_confidence miss
  lose_confidence-Observes e = ground arith

  miss-Observes : (e : Engine D) → Observes e (miss e)
  unfolding miss
  miss-Observes e = ground arith

  update_alignment-Observes :
      (e : Engine D) (stream_id : ℕ) (r : PacketRecord)
      → Observes e (update_alignment F e stream_id r)
  unfolding update_alignment
  update_alignment-Observes e stream_id r = elim (Bool-cases (is_informative r)) [
    | inr noisy ↦ rw noisy (Observes-refl e)
    | inl clean ↦ elim (Option-cases (narrow_match e stream_id r)) [
      | inr (m, hit) ↦ rw (clean, hit) (align_on_match-Observes e stream_id r m)
      | inl none_near ↦ elim (Bool-cases (r.stream_index % 512 == 0)) [
        | inr skip ↦ rw (clean, none_near, skip) (miss-Observes e)
        | inl turn ↦ elim (Option-cases (wide_match e stream_id r)) [
          | inl gone ↦ rw (clean, none_near, turn, gone) (lose_confidence-Observes e)
          | inr (m, hit) ↦
              rw (clean, none_near, turn, hit) (align_on_match-Observes e stream_id r m)
        ]
      ]
    ]
  ]

  set_model-Observes :
      (e : Engine D) (stream_id i : ℕ) (m : PcrPidModel D) → Observes e (set_model e stream_id i m)
  unfolding set_model
  set_model-Observes e stream_id i m = ground arith

  bitrate-Observes :
      (e : Engine D) (stream_id i : ℕ) (r : PacketRecord)
      → Observes e (observe_bitrate F e stream_id i r)
  unfolding observe_bitrate set_model
  bitrate-Observes e stream_id i r =
      let m = (e.pcr_model stream_id).pid_models i in
      let seconds = F.div (F.of_int (pos (sub64 r.pcr_value m.last_pcr))) (F.literal 90000 1) in
      elim (Bool-cases (F.lt (F.literal 0 1) seconds)) [
        | inr none_passed ↦ rw none_passed (Observes-refl e)
        | inl some_passed ↦ rw some_passed (record {
          history = refl;
          config = refl;
          next = refl;
          primary_queue = refl;
          secondary_queue = refl;
          confidence = λ h. h;
        })
      ]

  reference-Observes :
      (e : Engine D) (stream_id i : ℕ) (r : PacketRecord)
      → Observes e (observe_reference F e stream_id i r)
  unfolding observe_reference
  reference-Observes e stream_id i r =
      let m = (e.pcr_model stream_id).pid_models i in
      let e' =
        if not (m.last_arrival_time_ns == 0)
          && ltb m.last_pcr r.pcr_value
          && ltb m.last_stream_index r.stream_index
        then observe_bitrate F e stream_id i r
        else e in
      Observes-trans e e' _
        (if-Observes e
          (not (m.last_arrival_time_ns == 0)
            && ltb m.last_pcr r.pcr_value
            && ltb m.last_stream_index r.stream_index)
          _ _ (bitrate-Observes e stream_id i r) (Observes-refl e))
        (set_model-Observes e' stream_id i _)

  with_reference-Observes :
      (e : Engine D) (stream_id : ℕ) (r : PacketRecord) (p : Option ℕ × Engine D)
      → Observes e p.1
      → Observes e (with_reference F stream_id r p)
  with_reference-Observes e stream_id r (none, e') h = h
  with_reference-Observes e stream_id r (some i, e') h =
      Observes-trans e e' _ h (reference-Observes e' stream_id i r)

  pid_model_for-Observes :
      (e : Engine D) (stream_id pid : ℕ) → Observes e (pid_model_for F e stream_id pid).1
  unfolding pid_model_for
  pid_model_for-Observes e stream_id pid =
      elim (slot_loop max_pcr_pids (e.pcr_model stream_id).pid_models pid 0 none)
        as (λ s.
          Observes e
            (elim s as (λ x. Option ℕ × Engine D) [
              | known i ↦ (some i, e)
              | fresh i ↦ (some i, set_model e stream_id i (zero_model F pid))
              | full ↦ (none, e)
            ]).1) [
              | known i ↦ Observes-refl e
              | fresh i ↦ set_model-Observes e stream_id i (zero_model F pid)
              | full ↦ Observes-refl e
            ]

  delay-Observes :
      (e : Engine D) (stream_id : ℕ) (r m : PacketRecord)
      → Observes e (observe_delay F e stream_id r m)
  unfolding observe_delay
  delay-Observes e stream_id r m =
      let e' = if exact_match r m then align_on_match F e stream_id r m else e in
      Observes-trans e e' _
        (if-Observes e (exact_match r m) _ _ (align_on_match-Observes e stream_id r m)
          (Observes-refl e))
        (ground arith)

  update_pcr_timing-Observes :
      (e : Engine D) (r : PacketRecord) → Observes e (update_pcr_timing F e r)
  unfolding update_pcr_timing
  update_pcr_timing-Observes e r =
      let i = r.source_stream_id in
      let e' = with_reference F i r (pid_model_for F e i r.pid) in
      let h =
        with_reference-Observes e i r (pid_model_for F e i r.pid)
          (pid_model_for-Observes e i r.pid) in
      if-Observes e (not r.has_pcr || r.transport_error || r.discontinuity_indicator) e _
        (Observes-refl e)
        (elim (Option-cases (find_matching_pcr (e'.history (if i == 0 then 1 else 0)) r)) [
          | inl gone ↦ rw gone h
          | inr (m, there) ↦ rw there (Observes-trans e e' _ h (delay-Observes e' i r m))
        ])

  pub observe_record-Observes :
      (e : Engine D) (stream_id : ℕ) (r : PacketRecord)
      → Observes e (observe_record F e stream_id r)
  unfolding observe_record
  observe_record-Observes e stream_id r =
      let e1 = update_pcr_timing F e r in
      let e2 = observe_input_path_gap e1 stream_id r in
      Observes-trans e e1 _ (update_pcr_timing-Observes e r) (
        Observes-trans e1 e2 _ (input_path_gap-Observes e1 stream_id r)
          (update_alignment-Observes e2 stream_id r))

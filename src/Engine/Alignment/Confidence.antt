-- ===== src/Engine/Alignment/Confidence.antt =====
-- `update_alignment` of src/recovery_engine.c: the confidence of the alignment.
use two_stream_recovery.Base.{
  refl, ◌≤◌, ◌%◌, ◌+◌, Option-cases, ◌⊎◌, inl, true, ◌==◌, Bool-cases, ◌≡◌, inr, arith, ℕ,
}
use two_stream_recovery.Stats.Double.{Double}
use two_stream_recovery.Engine.State.{Engine, PacketRecord}
use two_stream_recovery.Engine.Match.{is_informative}
use two_stream_recovery.Engine.Alignment.{
  align_on, align_on_match, lose_confidence, miss, narrow_match, wide_match, update_alignment,
}

module _ {D : Type 0} where
  -- How the confidence may change.
  abbrev pub ChangesConfidence : Engine D → Engine D → Type 0
  ChangesConfidence e e' =
      ((e'.alignment.confidence ≡ 100) × (e'.alignment.has_alignment ≡ true))
      ⊎ ((e'.alignment.confidence ≡ e.alignment.confidence)
          × (e'.alignment.offset_packets ≡ e.alignment.offset_packets))
      ⊎ ((e'.alignment.confidence + 1 ≡ e.alignment.confidence)
          × (e'.alignment.offset_packets ≡ e.alignment.offset_packets)
          × (63 ≤ e.alignment.consecutive_misses))

module _ {D : Type 0} (F : Double D) where
  align_on_match-ChangesConfidence :
      (e : Engine D) (stream_id : ℕ) (r m : PacketRecord)
      → ChangesConfidence e (align_on_match F e stream_id r m)
  unfolding align_on_match align_on
  align_on_match-ChangesConfidence e stream_id r m = elim (Bool-cases (stream_id == 0)) [
    | inl b ↦ rw b (inl (refl, refl))
    | inr b ↦ rw b (inl (refl, refl))
  ]

  lose_confidence-ChangesConfidence : (e : Engine D) → ChangesConfidence e (lose_confidence e)
  unfolding lose_confidence miss
  lose_confidence-ChangesConfidence e = ground arith

  miss-ChangesConfidence : (e : Engine D) → ChangesConfidence e (miss e)
  unfolding miss
  miss-ChangesConfidence e = inr (inl (refl, refl))

  -- A packet that is searched for in the other stream either sets the confidence to 100, or leaves
  -- confidence and offset as they are, or, where 63 searches in a row had failed before, takes one
  -- off the confidence.
  pub update_alignment-ChangesConfidence :
      (e : Engine D) (stream_id : ℕ) (r : PacketRecord)
      → ChangesConfidence e (update_alignment F e stream_id r)
  unfolding update_alignment
  update_alignment-ChangesConfidence e stream_id r = elim (Bool-cases (is_informative r)) [
    | inr noisy ↦ rw noisy (inr (inl (refl, refl)))
    | inl clean ↦ elim (Option-cases (narrow_match e stream_id r)) [
      | inr (m, hit) ↦ rw (clean, hit) (align_on_match-ChangesConfidence e stream_id r m)
      | inl none_near ↦ elim (Bool-cases (r.stream_index % 512 == 0)) [
        | inr skip ↦ rw (clean, none_near, skip) (miss-ChangesConfidence e)
        | inl turn ↦ elim (Option-cases (wide_match e stream_id r)) [
          | inl gone ↦ rw (clean, none_near, turn, gone) (lose_confidence-ChangesConfidence e)
          | inr (m, hit) ↦
              rw (clean, none_near, turn, hit) (align_on_match-ChangesConfidence e stream_id r m)
        ]
      ]
    ]
  ]

-- ===== src/Engine/Pcr/Bounds.antt =====
-- `pcr_pid_model_for` of src/recovery_engine.c: the 32 models of a stream are kept one for each PID.
use two_stream_recovery.Base.{
  refl, ◌∙◌, ap, ◌⊎◌, zero, inr, inl, false, Bool-cases, arith, suc, true, ◌==◌, none, ◌≡◌, ◌&&◌,
  ◌+◌, some, ◌<◌, Option, ℕ,
}
use Prim.Native.Nat.{zero}
use native.Mathlib.Numerals.{unary_clauses}
use mathlib.Core.Option.{none}
use two_stream_recovery.Engine.State.{PcrPidModel}
use mathlib.Core.Path.{subst}
use two_stream_recovery.Engine.Pcr.{
  max_pcr_pids, PcrSlot, known, fresh, full, slot_loop, slot_or_full, first_free,
}

before-or-at : (j i : ℕ) → j < i + 1 → (j < i) ⊎ (j ≡ i)
before-or-at j i h = ground arith

module _ {D : Type 0} where
  -- No model before the `i`-th is of the PID.
  abbrev pub NoneBefore : (ℕ → PcrPidModel D) → ℕ → ℕ → Type 0
  NoneBefore models pid i = (j : ℕ) → j < i → ((models j).active && (models j).pid == pid) ≡ false

  -- What the search found among the first `n` models.
  abbrev pub IsFound : (ℕ → PcrPidModel D) → ℕ → ℕ → PcrSlot → Type 0
  IsFound models pid n (known i) = (i < n) × ((models i).active ≡ true) × ((models i).pid ≡ pid)
  IsFound models pid n (fresh i) = (i < n) × ((models i).active ≡ false) × NoneBefore models pid n
  IsFound models pid n full = NoneBefore models pid n × ((j : ℕ) → j < n → (models j).active ≡ true)

  -- What is known of the first free model when the search has come to the `i`-th.
  abbrev IsFirstFree : (ℕ → PcrPidModel D) → ℕ → Option ℕ → Type 0
  IsFirstFree models i none = (j : ℕ) → j < i → (models j).active ≡ true
  IsFirstFree models i (some f) = (f < i) × ((models f).active ≡ false)

  first_free-IsFirstFree :
      (models : ℕ → PcrPidModel D) (i : ℕ) (free : Option ℕ)
      → IsFirstFree models i free
      → IsFirstFree models (i + 1) (first_free free (models i).active i)
  first_free-IsFirstFree models i (some f) h = (omega arith, h.1)
  first_free-IsFirstFree models i none h = elim (Bool-cases (models i).active) [
    | inl taken ↦
        rw (taken, IsFirstFree)
          λ j low. elim (before-or-at j i low) [
            | inl less ↦ h j less
            | inr same ↦ ap (λ k. (models k).active) same ∙ taken
          ]
    | inr open_slot ↦ rw (open_slot, IsFirstFree) (omega arith, open_slot)
  ]

  slot_or_full-IsFound :
      (models : ℕ → PcrPidModel D) (pid i : ℕ) (free : Option ℕ)
      → IsFirstFree models i free
      → NoneBefore models pid i
      → IsFound models pid i (slot_or_full free)
  slot_or_full-IsFound models pid i none h k = (k, h)
  slot_or_full-IsFound models pid i (some f) h k = (h.0, h.1, k)

  pub slot_loop-IsFound :
      (rounds : ℕ) (models : ℕ → PcrPidModel D) (pid i : ℕ) (free : Option ℕ)
      → IsFirstFree models i free
      → NoneBefore models pid i
      → IsFound models pid (i + rounds) (slot_loop rounds models pid i free)
  unfolding slot_loop
  slot_loop-IsFound zero models pid i free h k =
      simp unary_clauses (slot_or_full-IsFound models pid i free h k)
  slot_loop-IsFound (suc n) models pid i free h k =
      elim (Bool-cases ((models i).active && (models i).pid == pid)) [
        | inl hit ↦ rw (hit, IsFound) (omega arith, ground arith, ground arith)
        | inr other ↦
            let rest =
              slot_loop-IsFound n models pid (i + 1) (first_free free (models i).active i)
                (first_free-IsFirstFree models i free h)
                (λ j low. elim (before-or-at j i low) [
                  | inl less ↦ k j less
                  | inr same ↦ ap (λ x. (models x).active && (models x).pid == pid) same ∙ other
                ]) in
            let step : slot_loop (suc n) models pid i free
                ≡ slot_loop n models pid (i + 1) (first_free free (models i).active i) =
              rw other refl in
            let same : i + 1 + n ≡ i + suc n = omega arith in
            rw step (
              subst
                (λ k.
                  IsFound models pid k
                    (slot_loop n models pid (i + 1) (first_free free (models i).active i)))
                same rest)
      ]

  -- The search through all 32 models of a stream ends with the model of the PID, or, where no model
  -- is of the PID, with one that is free, or else with the answer that all 32 are taken.
  pub slot_loop_complete :
      (models : ℕ → PcrPidModel D) (pid : ℕ)
      → IsFound models pid max_pcr_pids (slot_loop max_pcr_pids models pid 0 none)
  slot_loop_complete models pid =
      slot_loop-IsFound max_pcr_pids models pid 0 none (λ j low. absurd (omega arith))
        (λ j low. absurd (omega arith))

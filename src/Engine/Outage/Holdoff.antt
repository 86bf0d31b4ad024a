-- ===== src/Engine/Outage/Holdoff.antt =====
-- src/recovery_engine.c, `primary_return_holdoff_elapsed` and `drain_secondary_on_primary_outage`:
-- when the output changes between the streams.
use mathlib.Core.Logic.{◌↔◌}
use mathlib.Core.Path.{subst}
use two_stream_recovery.Base.{
  sub64, arith, ◌+◌, ◌≢◌, false, ◌^◌, true, ◌≤◌, ◌<◌, ◌≡◌, ◌==◌, ℕ, ◌⊎◌, inl, inr, List, [], ◌∷◌,
  Bool-cases, refl, if◌then◌else◌, ◌∙◌, sym,
}
use two_stream_recovery.Engine.State.{Engine}
use two_stream_recovery.Engine.Outage.{primary_is_silent, return_holdoff_elapsed}

module _ {D : Type 0} where
  -- With an outage time configured and both streams heard of, the primary counts as silent exactly
  -- from the outage time after its last packet on.
  pub primary_is_silent_iff :
      (e : Engine D) (now : ℕ)
      → 0 < e.config.primary_outage_ns
      → 0 < e.last_input_arrival_ns 0
      → 0 < e.last_input_arrival_ns 1
      → e.last_input_arrival_ns 0 ≤ now
      → now < 2 ^ 64
      → (primary_is_silent e now ≡ true)
        ↔ (e.config.primary_outage_ns + e.last_input_arrival_ns 0 ≤ now)
  unfolding primary_is_silent
  primary_is_silent_iff e now a b c d w = (λ h. ground arith, λ h. ground arith)

  -- Checks are listed with the last one first: the engine that each found, and the time.
  abbrev pub latest : List (Engine D × ℕ) → ℕ
  latest [] = 0
  latest ((e, now) ∷ earlier) = now

  -- A row of checks that leaves that start of the holdoff: the secondary stream has the output at
  -- each, time does not run backwards, and each finds the start that the one before has left. Whatever
  -- else is in the engine may change in between.
  abbrev pub IsWatched : List (Engine D × ℕ) → ℕ → Type 0
  IsWatched [] start = start ≡ 0
  IsWatched ((e, now) ∷ earlier) start =
      IsWatched earlier e.primary_return_start_ns
      × (e.active_output_stream_id ≡ 1)
      × (latest earlier ≤ now)
      × (now < 2 ^ 64)
      × (start ≡ (return_holdoff_elapsed e now).1.primary_return_start_ns)

  -- The primary stream has sent, and is not silent.
  abbrev pub IsHealthy : Engine D → ℕ → Type 0
  IsHealthy e now = (primary_is_silent e now ≡ false) × (e.last_input_arrival_ns 0 ≢ 0)

  -- One of the checks was at that time, and from it on every check found the primary healthy.
  abbrev pub IsHealthySince : ℕ → List (Engine D × ℕ) → Type 0
  IsHealthySince since [] = ⊥
  IsHealthySince since ((e, now) ∷ earlier) =
      IsHealthy e now × ((now ≡ since) ⊎ IsHealthySince since earlier)

  -- A check that goes on with a holdoff, or begins one, found the primary healthy; it began one if
  -- none was running.
  running_check :
      (e : Engine D) (now : ℕ)
      → e.active_output_stream_id ≡ 1
      → (return_holdoff_elapsed e now).1.primary_return_start_ns ≢ 0
      → IsHealthy e now
        × ((return_holdoff_elapsed e now).1.primary_return_start_ns
            ≡ (if e.primary_return_start_ns == 0 then now else e.primary_return_start_ns))
  unfolding return_holdoff_elapsed
  running_check e now a h = ground (arith, h)

  passed_check :
      (e : Engine D) (now : ℕ)
      → e.active_output_stream_id ≡ 1
      → (return_holdoff_elapsed e now).0 ≡ true
      → IsHealthy e now
        × (e.config.primary_return_ns
            ≤ sub64 now (if e.primary_return_start_ns == 0 then now else e.primary_return_start_ns))
  unfolding return_holdoff_elapsed
  passed_check e now a h = ground (arith, h)

  IsHealthySince-latest :
      (since : ℕ) (checks : List (Engine D × ℕ)) (start : ℕ)
      → IsWatched checks start
      → IsHealthySince since checks
      → since ≤ latest checks
  IsHealthySince-latest since [] start w h = absurd h
  IsHealthySince-latest since ((e, now) ∷ earlier) start w h =
      let (before, active, ordered, small, left) = w in
      elim h.1 [
        | inl here ↦ omega (arith, here)
        | inr there ↦
            let bound =
              IsHealthySince-latest since earlier e.primary_return_start_ns before there in
            omega (arith, bound, ordered)
      ]

  -- A holdoff that is running began at a check, and the primary has been healthy since.
  running-IsHealthySince :
      (checks : List (Engine D × ℕ)) (start : ℕ)
      → IsWatched checks start
      → start ≢ 0
      → IsHealthySince start checks
  running-IsHealthySince [] start w h = absurd (h w)
  running-IsHealthySince ((e, now) ∷ earlier) start w h =
      let (before, active, ordered, small, left) = w in
      let (healthy, began) = running_check e now active (λ z. h (left ∙ z)) in
      elim (Bool-cases (e.primary_return_start_ns == 0)) [
        | inl idle ↦ (healthy, inl (sym (left ∙ rw idle at began)))
        | inr running ↦
            let same : start ≡ e.primary_return_start_ns = left ∙ rw running at began in
            let nonzero : e.primary_return_start_ns ≢ 0 = λ z. h (same ∙ z) in
            (
              healthy,
              inr (
                  subst (λ x. IsHealthySince x earlier) (sym same)
                    (running-IsHealthySince earlier e.primary_return_start_ns before nonzero)),
            )
      ]

  -- While the secondary stream has the output, the primary gets it back only after a row of checks
  -- that each found it healthy, that is heard of and not silent, and that spans at least the configured
  -- time: the first of the row was that long before the last one. The checks are taken to follow each
  -- other from a start at which no holdoff was running, at times that do not run backwards.
  pub return_holdoff_elapsed-IsHealthySince :
      (e : Engine D) (now : ℕ) (earlier : List (Engine D × ℕ)) (start : ℕ)
      → IsWatched ((e, now) ∷ earlier) start
      → (return_holdoff_elapsed e now).0 ≡ true
      → (since : ℕ) × IsHealthySince since ((e, now) ∷ earlier)
        × (since + e.config.primary_return_ns ≤ now)
  return_holdoff_elapsed-IsHealthySince e now earlier start w h =
      let (before, active, ordered, small, left) = w in
      let (healthy, long) = passed_check e now active h in
      elim (Bool-cases (e.primary_return_start_ns == 0)) [
        | inl idle ↦
            let none_left = rw idle at long in
            (now, (healthy, inl refl), omega (arith, none_left, small))
        | inr running ↦
            let s : ℕ = e.primary_return_start_ns in
            let nonzero : s ≢ 0 = λ z. ground (arith, z, running) in
            let there = running-IsHealthySince earlier s before nonzero in
            let bound = IsHealthySince-latest s earlier s before there in
            let spans = rw running at long in
            (s, (healthy, inr there), omega (arith, bound, ordered, spans, small))
      ]

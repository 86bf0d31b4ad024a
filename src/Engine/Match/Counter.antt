-- ===== src/Engine/Match/Counter.antt =====
-- Continuity counters in src/recovery_engine.c: how many packets of a PID a jump shows to be
-- missing, and what fits behind what.
use mathlib.Core.Logic.{◌↔◌}
use two_stream_recovery.Base.{false, arith, ◌%◌, ◌==◌, ◌+◌, true, some, ◌<◌, ◌≡◌}
use two_stream_recovery.Engine.Match.{ℕ, infer_missing, fits, observe_states, is_informative}
use two_stream_recovery.Engine.State.{PacketRecord, OutputPidState}

-- For 4-bit counters, `infer_missing_from_cc` finds `k` missing packets exactly when the record has
-- a payload, is not null, and its counter is `k + 1` steps after the previous one, `k` below 15.
pub infer_missing_iff :
    (previous k : ℕ) (r : PacketRecord)
    → previous < 16
    → r.continuity_counter < 16
    → (infer_missing previous r ≡ some k) ↔ (
        (k < 15)
        × ((previous + k + 1) % 16 ≡ r.continuity_counter)
        × (r.has_payload ≡ true)
        × (r.is_null ≡ false))
unfolding infer_missing
infer_missing_iff previous k r hp hc = (λ e. ground arith, λ c. ground arith)

-- A clean payload record fits the states behind another of its PID exactly when its counter is the
-- next one.
pub fits-observe_states :
    (states : ℕ → OutputPidState) (a b : PacketRecord)
    → is_informative a ≡ true
    → is_informative b ≡ true
    → a.pid ≡ b.pid
    → b.has_payload ≡ true
    → fits (observe_states states a) b ≡ (b.continuity_counter == (a.continuity_counter + 1) % 16)
unfolding fits observe_states is_informative
fits-observe_states states a b ha hb e payload = ground arith

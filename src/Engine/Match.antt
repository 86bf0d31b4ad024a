-- ===== src/Engine/Match.antt =====
-- src/recovery_engine.c, the tests on packet records: which carry information, which match, and
-- which continue what has been output.
pub mod Counter
use Prim.Native.Nat.{bit_xor}
use two_stream_recovery.Base.{
  ℕ, zero, suc, ◌+◌, ◌-◌, ◌%◌, Bool, true, false, not, ◌&&◌, ◌||◌, ltb, leb, ◌==◌, if◌then◌else◌,
  sub32, mul64, update, Option, none, some,
}
use two_stream_recovery.Ts.{Packet, ts_packet_size}
use two_stream_recovery.Engine.State.{PacketRecord, OutputPidState}

hash_loop : ℕ → Packet → ℕ → ℕ → ℕ
hash_loop zero packet i hash = hash
hash_loop (suc rounds) packet i hash =
    hash_loop rounds packet (i + 1) (mul64 (bit_xor hash (packet i)) 1099511628211)

-- `hash_packet`, the 64-bit FNV-1a hash of the 188 bytes.
unfoldable pub hash_packet : Packet → ℕ
unfolding hash_loop
hash_packet packet = hash_loop ts_packet_size packet 0 1469598103934665603

-- `record_is_informative`.
unfoldable pub is_informative : PacketRecord → Bool
is_informative r = not r.is_null && not r.transport_error && not r.discontinuity_indicator

-- `a->hash == b->hash && a->pid == b->pid && a->continuity_counter == b->continuity_counter`.
abbrev pub same_packet : PacketRecord → PacketRecord → Bool
same_packet a b = a.hash == b.hash && a.pid == b.pid && a.continuity_counter == b.continuity_counter

-- `records_match`.
unfoldable pub records_match : PacketRecord → PacketRecord → Bool
unfolding is_informative
records_match a b = is_informative a && is_informative b && same_packet a b

-- `records_exact_non_error_match`.
unfoldable pub exact_match : PacketRecord → PacketRecord → Bool
exact_match a b =
    not a.transport_error
    && not b.transport_error
    && not a.discontinuity_indicator
    && not b.discontinuity_indicator
    && same_packet a b

-- `records_are_non_null_exact_anchor`; `none` is NULL.
unfoldable pub are_anchor : Option PacketRecord → Option PacketRecord → Bool
unfolding exact_match
are_anchor none b = false
are_anchor (some a) none = false
are_anchor (some a) (some b) = not a.is_null && not b.is_null && exact_match a b

-- `record_fits_output_states`.
unfoldable pub fits : (ℕ → OutputPidState) → PacketRecord → Bool
fits states r =
    let state = states r.pid in
    if r.is_null
    then true
    else if r.transport_error || r.discontinuity_indicator
    then false
    else if not state.valid
    then true
    else if not r.has_payload
    then r.continuity_counter == state.continuity_counter
    else r.continuity_counter == (state.continuity_counter + 1) % 16

-- `infer_missing_from_cc`; `none` is false.
unfoldable pub infer_missing : ℕ → PacketRecord → Option ℕ
infer_missing previous_cc r =
    let delta : ℕ = sub32 (r.continuity_counter + 16) previous_cc % 16 in
    if not r.has_payload || r.is_null then none else if delta == 0 then none else some (delta - 1)

-- The state of a PID after its record was output, in `observe_output_record` and in
-- `observe_output_states`.
abbrev pub output_state_after : OutputPidState → PacketRecord → OutputPidState
output_state_after state r = record state {
  valid = true;
  continuity_counter = r.continuity_counter;
  last_arrival_time_ns = r.arrival_time_ns;
  last_primary_continuity_errors =
      if r.source_stream_id == 0
      then r.stream_continuity_errors
      else state.last_primary_continuity_errors;
}

-- `observe_output_states`.
unfoldable pub observe_states : (ℕ → OutputPidState) → PacketRecord → ℕ → OutputPidState
observe_states states r =
    if r.is_null || r.transport_error || r.discontinuity_indicator
    then states
    else update states r.pid (output_state_after (states r.pid) r)

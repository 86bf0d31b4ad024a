-- ===== src/Engine/Pcr.antt =====
-- src/recovery_engine.c, the timing that program clock references give (`update_pcr_timing`).
pub mod Bounds
use two_stream_recovery.Base.{
  ℕ, zero, suc, ◌+◌, ◌-◌, ◌%◌, pos, ◌-ℤ◌, int64, Bool, true, false, not, ◌&&◌, ◌||◌, ltb, ◌==◌,
  if◌then◌else◌, update, add64, sub64, Option, none, some,
}
use two_stream_recovery.Stats.{Stats}
use two_stream_recovery.Stats.Double.{Double}
use two_stream_recovery.Stats.Latency.{smooth, observe_pcr_delay}
use two_stream_recovery.Engine.State.{
  Engine, PacketRecord, PacketHistory, PcrPidModel, PcrTimingModel,
}
use two_stream_recovery.Engine.Match.{exact_match}
use two_stream_recovery.Engine.Alignment.{align_on_match}

abbrev pub max_pcr_pids : ℕ
max_pcr_pids = 32

-- What the loop of `pcr_pid_model_for` ends with.
pub data PcrSlot : Type 0 where
  known : ℕ → PcrSlot
  fresh : ℕ → PcrSlot
  full : PcrSlot

abbrev slot_or_full : Option ℕ → PcrSlot
slot_or_full none = full
slot_or_full (some i) = fresh i

abbrev first_free : Option ℕ → Bool → ℕ → Option ℕ
first_free (some j) active i = some j
first_free none active i = if active then none else some i

module _ {D : Type 0} where
  unfoldable pub slot_loop : ℕ → (ℕ → PcrPidModel D) → ℕ → ℕ → Option ℕ → PcrSlot
  slot_loop zero models pid i free = slot_or_full free
  slot_loop (suc rounds) models pid i free =
      let rest = slot_loop rounds models pid (i + 1) (first_free free (models i).active i) in
      if (models i).active && (models i).pid == pid then known i else rest

  unfoldable pub set_model : Engine D → ℕ → ℕ → PcrPidModel D → Engine D
  set_model e stream_id i m = record e {
    pcr_model = update e.pcr_model stream_id (record (e.pcr_model stream_id) {
      pid_models = update (e.pcr_model stream_id).pid_models i m;
    });
  }

matching_pcr : PacketRecord → PacketRecord → Bool
matching_pcr r candidate =
    candidate.has_pcr
    && candidate.pid == r.pid
    && candidate.pcr_value == r.pcr_value
    && not candidate.transport_error
    && not candidate.discontinuity_indicator

later : Option PacketRecord → PacketRecord → Option PacketRecord
later none candidate = some candidate
later (some best) candidate =
    if ltb best.arrival_time_ns candidate.arrival_time_ns then some candidate else some best

pcr_record_loop : ℕ → PacketHistory → PacketRecord → ℕ → Option PacketRecord → Option PacketRecord
pcr_record_loop zero h r i best = best
pcr_record_loop (suc rounds) h r i best =
    let candidate = h.records (add64 h.start i % h.capacity) in
    pcr_record_loop rounds h r (i + 1)
      (if matching_pcr r candidate then later best candidate else best)

-- `find_matching_pcr_record`.
unfoldable pub find_matching_pcr : PacketHistory → PacketRecord → Option PacketRecord
unfolding pcr_record_loop matching_pcr later
find_matching_pcr h r = pcr_record_loop h.count h r 0 none

-- `confidence += confidence > 95 ? 100 - confidence : 5`, below 100.
unfoldable pub raise_confidence : ℕ → ℕ
raise_confidence c = if ltb c 100 then (if ltb 95 c then c + (100 - c) else c + 5) else c

module _ {D : Type 0} (F : Double D) where
  open F use {of_int, literal, mul, div, lt, eq}

  pub zero_model : ℕ → PcrPidModel D
  zero_model pid = record {
    active = true;
    pid = pid;
    last_pcr = 0;
    last_stream_index = 0;
    last_arrival_time_ns = 0;
    bitrate_bps = literal 0 1;
    packets_per_second = literal 0 1;
    jitter_ns = literal 0 1;
    confidence = 0;
  }

  -- `pcr_pid_model_for`: the index of the model of the PID, and the engine with it claimed.
  unfoldable pub pid_model_for : Engine D → ℕ → ℕ → Option ℕ × Engine D
  unfolding slot_loop set_model zero_model
  pid_model_for e stream_id pid =
      elim (slot_loop max_pcr_pids (e.pcr_model stream_id).pid_models pid 0 none) [
        | known i ↦ (some i, e)
        | fresh i ↦ (some i, set_model e stream_id i (zero_model pid))
        | full ↦ (none, e)
      ]

  -- `(last bitrate) * 0.875 + (new bitrate) * 0.125`, or the first bitrate.
  bitrate_after : D → D → D
  bitrate_after old new = if eq old (literal 0 1) then new else smooth F old new

  -- The bitrate between two references of one PID.
  unfoldable pub observe_bitrate : Engine D → ℕ → ℕ → PacketRecord → Engine D
  unfolding set_model bitrate_after raise_confidence
  observe_bitrate e stream_id i r =
      let m = (e.pcr_model stream_id).pid_models i in
      let seconds = div (of_int (pos (sub64 r.pcr_value m.last_pcr))) (literal 90000 1) in
      let bits =
        mul (mul (of_int (pos (sub64 r.stream_index m.last_stream_index))) (of_int (pos 188)))
          (literal 8 1) in
      let bitrate = bitrate_after m.bitrate_bps (div bits seconds) in
      let c : ℕ = raise_confidence m.confidence in
      let e' = set_model e stream_id i (record m { bitrate_bps = bitrate; confidence = c }) in
      if not (lt (literal 0 1) seconds) then e else record e' {
        pcr_model =
            update e'.pcr_model stream_id (record (e'.pcr_model stream_id) { confidence = c });
        stats = record e'.stats {
          pcr_bitrate_bps = update e'.stats.pcr_bitrate_bps stream_id bitrate;
          pcr_timing_confidence = update e'.stats.pcr_timing_confidence stream_id c;
        };
      }

  -- The model's last reference becomes this record's.
  unfoldable pub observe_reference : Engine D → ℕ → ℕ → PacketRecord → Engine D
  unfolding set_model observe_bitrate
  observe_reference e stream_id i r =
      let m = (e.pcr_model stream_id).pid_models i in
      let e' =
        if not (m.last_arrival_time_ns == 0)
          && ltb m.last_pcr r.pcr_value
          && ltb m.last_stream_index r.stream_index
        then observe_bitrate e stream_id i r
        else e in
      set_model e' stream_id i (record ((e'.pcr_model stream_id).pid_models i) {
        last_pcr = r.pcr_value;
        last_stream_index = r.stream_index;
        last_arrival_time_ns = r.arrival_time_ns;
      })

  -- The delay between the streams that a reference seen on both shows.
  unfoldable pub observe_delay : Engine D → ℕ → PacketRecord → PacketRecord → Engine D
  unfolding align_on_match ◌-ℤ◌
  observe_delay e stream_id r m =
      let e' = if exact_match r m then align_on_match F e stream_id r m else e in
      let sample =
        if stream_id == 0
        then of_int (int64 m.arrival_time_ns -ℤ int64 r.arrival_time_ns)
        else of_int (int64 r.arrival_time_ns -ℤ int64 m.arrival_time_ns) in
      record e' {
        pcr_model =
            update (update e'.pcr_model 0 (record (e'.pcr_model 0) { estimated_delay_ns = sample }))
              1 (record (e'.pcr_model 1) { estimated_delay_ns = sample });
        stats = observe_pcr_delay F e'.stats sample;
      }

  abbrev pub with_reference : ℕ → PacketRecord → Option ℕ × Engine D → Engine D
  with_reference stream_id r (none, e) = e
  with_reference stream_id r (some i, e) = observe_reference e stream_id i r

  -- `update_pcr_timing`.
  unfoldable pub update_pcr_timing : Engine D → PacketRecord → Engine D
  unfolding pid_model_for observe_reference observe_delay
  update_pcr_timing e r =
      let stream_id : ℕ = r.source_stream_id in
      let e' = with_reference stream_id r (pid_model_for e stream_id r.pid) in
      if not r.has_pcr || r.transport_error || r.discontinuity_indicator
      then e
      else elim (find_matching_pcr (e'.history (if stream_id == 0 then 1 else 0)) r) [
        | none ↦ e'
        | some m ↦ observe_delay e' stream_id r m
      ]

-- ===== src/Stats/Counters.antt =====
-- src/report_stats.c, `report_stats_observe_packet`: the continuity of one PID of one stream.
use two_stream_recovery.Base.{
  update, ap, update_self, leb, ◌&&◌, refl, update-ne, ◌∙◌, not, Bool, ◌≢◌, pos, pos_part, sub64, ℤ,
  false, ◌<◌, arith, add64, ◌%◌, ◌+◌, ◌||◌, ◌==◌, if◌then◌else◌, true, ◌≡◌, ℕ,
}
use two_stream_recovery.Stats.Observe.{
  update2, is_stream, reset_stream_continuity, remember_counter, count_packet, observe_packet,
  check_counter,
}
use two_stream_recovery.Ts.{TsPacketInfo}
use two_stream_recovery.Stats.{offline_ns, Stats}

update2_self : (cells : ℕ → ℕ → ℕ) (i j v : ℕ) → update2 cells i j v i j ≡ v
update2_self cells i j v =
    ap {A = ℕ → ℕ} (λ f. f j) (update_self cells i (update (cells i) j v))
    ∙ update_self (cells i) j v

is_stream-true : (i : ℕ) → i < 2 → is_stream (pos i) ≡ true
is_stream-true i h = ground arith

module _ {D : Type 0} where
  check_counter-received :
      (s : Stats D) (i : ℕ) (info : TsPacketInfo)
      → (check_counter s i info).packets_received ≡ s.packets_received
  unfolding check_counter
  check_counter-received s i info = ground arith

  check_counter-payload :
      (s : Stats D) (i : ℕ) (info : TsPacketInfo)
      → info.has_payload ≡ true
      → ((check_counter s i info).continuity_errors i ≡ (
          if info.continuity_counter == s.last_continuity_counter i info.pid
            || info.continuity_counter == (s.last_continuity_counter i info.pid + 1) % 16
          then s.continuity_errors i
          else add64 (s.continuity_errors i) 1))
        × ((check_counter s i info).duplicate_counters i ≡ (
            if info.continuity_counter == s.last_continuity_counter i info.pid
            then add64 (s.duplicate_counters i) 1
            else s.duplicate_counters i))
  unfolding check_counter
  check_counter-payload s i info h = ground arith

  -- `last_continuity_counter[i][pid] = cc;`
  abbrev mark : Stats D → ℕ → TsPacketInfo → Stats D
  mark s i info = record s {
    last_continuity_counter = update2 s.last_continuity_counter i info.pid info.continuity_counter;
  }

  -- The function with its four tests as arguments.
  abbrev by_tests : Stats D → ℕ → TsPacketInfo → ℕ → Bool → Bool → Bool → Bool → Stats D
  by_tests s i info now silent stream clean known =
      let s1 = count_packet (if silent then reset_stream_continuity s i else s) i info now in
      if not stream
      then s
      else if clean
      then remember_counter s1 i info
      else if not known
      then remember_counter s1 i info
      else mark (check_counter s1 i info) i info

  observe_packet-eq :
      (s : Stats D) (i : ℕ) (info : TsPacketInfo) (now : ℕ)
      → i < 2
      → info.is_null ≡ false
      → info.transport_error ≡ false
      → info.discontinuity_indicator ≡ false
      → s.has_continuity_counter i info.pid ≡ true
      → sub64 now (s.last_packet_ns i) < offline_ns
      → observe_packet s (pos i) info now
        ≡ mark (check_counter (count_packet s i info now) i info) i info
  unfolding observe_packet count_packet
  observe_packet-eq s i info now a b c d g h =
      let spoken : (not (now == 0)
            && not (s.last_packet_ns i == 0)
            && leb offline_ns (sub64 now (s.last_packet_ns i)))
          ≡ false =
        ground arith in
      let stream = is_stream-true i a in
      let clean : (info.is_null || info.transport_error || info.discontinuity_indicator) ≡ false =
        ground arith in
      (λ k. by_tests s i info now (spoken k) (stream k) (clean k) (
        (count_packet (if spoken k then reset_stream_continuity s i else s) i info
            now).has_continuity_counter
          i info.pid))
      ∙ (λ k. by_tests s i info now false true false (g k))

  -- `report_stats_observe_packet` on a packet with a payload and without error flags, of a PID whose
  -- last counter is known, on a stream that has not been silent: the packet is counted; a counter
  -- equal to the last one is a duplicate; any other but the next one modulo 16 is a continuity
  -- error; and the packet's counter becomes the last one.
  pub observe_packet-payload :
      (s : Stats D) (i : ℕ) (info : TsPacketInfo) (now : ℕ)
      → i < 2
      → info.is_null ≡ false
      → info.transport_error ≡ false
      → info.discontinuity_indicator ≡ false
      → info.has_payload ≡ true
      → s.has_continuity_counter i info.pid ≡ true
      → sub64 now (s.last_packet_ns i) < offline_ns
      → ((observe_packet s (pos i) info now).packets_received i ≡ add64 (s.packets_received i) 1)
        × ((observe_packet s (pos i) info now).continuity_errors i ≡ (
            if info.continuity_counter == s.last_continuity_counter i info.pid
              || info.continuity_counter == (s.last_continuity_counter i info.pid + 1) % 16
            then s.continuity_errors i
            else add64 (s.continuity_errors i) 1))
        × ((observe_packet s (pos i) info now).duplicate_counters i ≡ (
            if info.continuity_counter == s.last_continuity_counter i info.pid
            then add64 (s.duplicate_counters i) 1
            else s.duplicate_counters i))
        × ((observe_packet s (pos i) info now).last_continuity_counter i info.pid
            ≡ info.continuity_counter)
  unfolding observe_packet count_packet
  observe_packet-payload s i info now a b c d f g h =
      let s1 = count_packet s i info now in
      let r = check_counter-payload s1 i info f in
      rw (observe_packet-eq s i info now a b c d g h) (
        ap {A = ℕ → ℕ} (λ f. f i) (check_counter-received s1 i info)
            ∙ update_self s.packets_received i (add64 (s.packets_received i) 1),
        r.0,
        r.1,
        update2_self (check_counter s1 i info).last_continuity_counter i info.pid
            info.continuity_counter,
      )

  -- Nothing that is kept for the stream differs.
  pub record IsSame (j : ℕ) (s s' : Stats D) : Type 0 where
    pub received : s'.packets_received j ≡ s.packets_received j
    pub errors : s'.continuity_errors j ≡ s.continuity_errors j
    pub duplicates : s'.duplicate_counters j ≡ s.duplicate_counters j
    pub known : s'.has_continuity_counter j ≡ s.has_continuity_counter j
    pub last : s'.last_continuity_counter j ≡ s.last_continuity_counter j
    pub heard : s'.last_packet_ns j ≡ s.last_packet_ns j

  IsSame-trans : (j : ℕ) (a b c : Stats D) → IsSame j a b → IsSame j b c → IsSame j a c
  IsSame-trans j a b c h k = record {
    received = k.received ∙ h.received;
    errors = k.errors ∙ h.errors;
    duplicates = k.duplicates ∙ h.duplicates;
    known = k.known ∙ h.known;
    last = k.last ∙ h.last;
    heard = k.heard ∙ h.heard;
  }

  either-IsSame :
      (j : ℕ) (s : Stats D) (b : Bool) (x y : Stats D)
      → IsSame j s x
      → IsSame j s y
      → IsSame j s (if b then x else y)
  either-IsSame j s true x y h k = h
  either-IsSame j s false x y h k = k

  same : (j : ℕ) (s : Stats D) → IsSame j s s
  same j s = record {
    received = refl;
    errors = refl;
    duplicates = refl;
    known = refl;
    last = refl;
    heard = refl;
  }

  reset-IsSame : (j i : ℕ) (s : Stats D) → i ≢ j → IsSame j s (reset_stream_continuity s i)
  unfolding reset_stream_continuity
  reset-IsSame j i s h = ground (arith, update-ne s.has_continuity_counter i j (λ _. false) h)

  count_packet-IsSame :
      (j i : ℕ) (s : Stats D) (info : TsPacketInfo) (now : ℕ)
      → i ≢ j
      → IsSame j s (count_packet s i info now)
  unfolding count_packet
  count_packet-IsSame j i s info now h = record {
    received = update-ne s.packets_received i j _ h;
    errors = refl;
    duplicates = refl;
    known = refl;
    last = refl;
    heard = update-ne s.last_packet_ns i j _ h;
  }

  remember-IsSame :
      (j i : ℕ) (s : Stats D) (info : TsPacketInfo) → i ≢ j → IsSame j s (remember_counter s i info)
  unfolding remember_counter
  remember-IsSame j i s info h = record {
    received = refl;
    errors = refl;
    duplicates = refl;
    known = update-ne s.has_continuity_counter i j _ h;
    last = update-ne s.last_continuity_counter i j _ h;
    heard = refl;
  }

  check-IsSame :
      (j i : ℕ) (s : Stats D) (info : TsPacketInfo) → i ≢ j → IsSame j s (check_counter s i info)
  unfolding check_counter
  check-IsSame j i s info h = ground (
    arith,
    update-ne s.continuity_errors i j (add64 (s.continuity_errors i) 1) h,
    update-ne s.duplicate_counters i j (add64 (s.duplicate_counters i) 1) h,
  )

  mark-IsSame :
      (j i : ℕ) (s : Stats D) (info : TsPacketInfo)
      → i ≢ j
      → IsSame j s (record s {
        last_continuity_counter =
            update2 s.last_continuity_counter i info.pid info.continuity_counter;
      })
  mark-IsSame j i s info h = record {
    received = refl;
    errors = refl;
    duplicates = refl;
    known = refl;
    last = update-ne s.last_continuity_counter i j _ h;
    heard = refl;
  }

  -- `report_stats_observe_packet` of one stream leaves the counters of the other as they are.
  pub observe_packet-other :
      (s : Stats D) (stream_id : ℤ) (info : TsPacketInfo) (now j : ℕ)
      → pos_part stream_id ≢ j
      → IsSame j s (observe_packet s stream_id info now)
  unfolding observe_packet
  observe_packet-other s stream_id info now j h =
      let i = pos_part stream_id in
      let silent =
        not (now == 0)
        && not (s.last_packet_ns i == 0)
        && leb offline_ns (sub64 now (s.last_packet_ns i)) in
      let t0 : Stats D = if silent then reset_stream_continuity s i else s in
      let t1 = count_packet t0 i info now in
      let s0 = either-IsSame j s silent _ _ (reset-IsSame j i s h) (same j s) in
      let s1 = IsSame-trans j s t0 t1 s0 (count_packet-IsSame j i t0 info now h) in
      let remembered = IsSame-trans j s t1 _ s1 (remember-IsSame j i t1 info h) in
      let checked = IsSame-trans j s t1 _ s1 (check-IsSame j i t1 info h) in
      let marked =
        IsSame-trans j s _ _ checked (mark-IsSame j i (check_counter t1 i info) info h) in
      either-IsSame j s (not (is_stream stream_id)) _ _ (same j s) (
        either-IsSame j s (info.is_null || info.transport_error || info.discontinuity_indicator) _ _
          remembered
          (either-IsSame j s (not (t1.has_continuity_counter i info.pid)) _ _ remembered marked))

-- ===== src/Engine/Alignment.antt =====
-- src/recovery_engine.c, the alignment of the two streams: a packet of one is looked for in the
-- history of the other, and a match counts if the packets before it match too.
pub mod Confirmed
pub mod Confidence
use two_stream_recovery.Base.{
  ℕ, zero, suc, ◌+◌, ◌-◌, ◌*◌, ◌/◌, ◌%◌, ℤ, pos, pos_part, ◌+ℤ◌, ◌-ℤ◌, int64, ltb_ℤ, Bool, true,
  false, not, ◌&&◌, ◌||◌, ltb, leb, ◌==◌, if◌then◌else◌, add64, sub64, mul64, add32, Option, none,
  some,
}
use two_stream_recovery.Stats.Double.{Double}
use two_stream_recovery.Stats.Latency.{observe_latency}
use two_stream_recovery.Engine.State.{Engine, PacketRecord, PacketHistory}
use two_stream_recovery.Engine.History.{find_record}
use two_stream_recovery.Engine.Match.{records_match, is_informative}

abbrev pub match_threshold : ℕ
match_threshold = 8

abbrev pub boundary_search_extra : ℕ
boundary_search_extra = 8

-- `previous_self != NULL && previous_other != NULL && records_match(...)`.
abbrev pub both_match : Option PacketRecord → Option PacketRecord → Bool
both_match none b = false
both_match (some a) none = false
both_match (some a) (some b) = records_match a b

-- The loop of `has_confirmed_backward_run` from `count` on, with the rounds that are left.
unfoldable pub backward_run :
    ℕ → PacketHistory → PacketHistory → PacketRecord → PacketRecord → ℕ → Bool
backward_run zero self other r m count = true
backward_run (suc rounds) self other r m count =
    let rest = backward_run rounds self other r m (count + 1) in
    if ltb r.stream_index count || ltb m.stream_index count
    then false
    else if not (
        both_match (find_record self (sub64 r.stream_index count))
          (find_record other (sub64 m.stream_index count)))
    then false
    else rest

-- `has_confirmed_backward_run`.
unfoldable pub confirmed : PacketHistory → PacketHistory → PacketRecord → ℕ → PacketRecord → Bool
confirmed self other r required m = backward_run (required - 1) self other r m 1

-- The body of the loop of `find_confirmed_matching_record_near` at one index.
unfoldable pub match_at : PacketHistory → PacketHistory → PacketRecord → ℕ → ℤ → Option PacketRecord
match_at self other r required index =
    if ltb_ℤ index (pos 0) then none else elim (find_record other (pos_part index)) [
      | none ↦ none
      | some m ↦ if records_match r m && confirmed self other r required m then some m else none
    ]

near_loop : ℕ → PacketHistory → PacketHistory → PacketRecord → ℕ → ℤ → Option PacketRecord
near_loop zero self other r required index = none
near_loop (suc rounds) self other r required index = elim (match_at self other r required index) [
  | none ↦ near_loop rounds self other r required (index +ℤ pos 1)
  | some m ↦ some m
]

-- `find_confirmed_matching_record_near`: the indices from `expected - radius` to
-- `expected + radius` in turn.
unfoldable pub match_near :
    PacketHistory → PacketHistory → PacketRecord → ℕ → ℤ → ℕ → Option PacketRecord
unfolding near_loop ◌-ℤ◌
match_near self other r required expected radius =
    near_loop (2 * radius + 1) self other r required (expected -ℤ pos radius)

module _ {D : Type 0} where
  -- `alignment_search_radius_packets`.
  unfoldable pub search_radius : Engine D → ℕ
  search_radius e =
      let wanted : ℕ = add64 (mul64 e.config.alignment_window_ns 14) 999999 / 1000000 in
      let radius : ℕ = if ltb wanted 2048 then 2048 else wanted in
      if ltb (e.history 0).capacity radius then (e.history 0).capacity else radius

  -- `primary->stream_index + offset_packets`, and the other way for the secondary stream.
  unfoldable pub expected_index : Engine D → ℕ → PacketRecord → ℤ
  unfolding ◌+ℤ◌ ◌-ℤ◌
  expected_index e stream_id r =
      if stream_id == 0
      then int64 r.stream_index +ℤ e.alignment.offset_packets
      else int64 r.stream_index -ℤ e.alignment.offset_packets

  -- `find_aligned_secondary_record`.
  unfoldable pub aligned_secondary : Engine D → PacketRecord → Option PacketRecord
  unfolding expected_index
  aligned_secondary e primary =
      let index = expected_index e 0 primary in
      if not e.alignment.has_alignment
      then none
      else if ltb_ℤ index (pos 0)
      then none
      else find_record (e.history 1) (pos_part index)

  -- The first two searches of `update_alignment`: near the known offset, then near the same index.
  unfoldable pub narrow_match : Engine D → ℕ → PacketRecord → Option PacketRecord
  narrow_match e stream_id r =
      let self = e.history stream_id in
      let other = e.history (if stream_id == 0 then 1 else 0) in
      let direct =
        match_near self other r match_threshold (int64 r.stream_index) boundary_search_extra in
      let expected =
        match_near self other r match_threshold (expected_index e stream_id r)
          boundary_search_extra in
      if not e.alignment.has_alignment
      then direct
      else elim expected [ none ↦ direct | some m ↦ some m ]

  -- The third, tried on every 512th packet.
  unfoldable pub wide_match : Engine D → ℕ → PacketRecord → Option PacketRecord
  wide_match e stream_id r =
      match_near (e.history stream_id) (e.history (if stream_id == 0 then 1 else 0)) r
        match_threshold (int64 r.stream_index) (search_radius e)

  unfoldable pub miss : Engine D → Engine D
  miss e = record e {
    alignment = record e.alignment { consecutive_misses = add32 e.alignment.consecutive_misses 1 };
  }

  -- A search that failed: after 64 of them the confidence falls by one.
  unfoldable pub lose_confidence : Engine D → Engine D
  unfolding miss
  lose_confidence e =
      let e' = miss e in
      let a = e'.alignment in
      if leb 64 a.consecutive_misses && ltb 0 a.confidence
      then record e' {
        alignment = record a { confidence = a.confidence - 1; consecutive_misses = 0 };
        stats = record e'.stats { alignment_confidence = a.confidence - 1 };
      }
      else e'

module _ {D : Type 0} (F : Double D) where
  -- `update_alignment_from_match`.
  unfoldable pub align_on : Engine D → PacketRecord → PacketRecord → Engine D
  unfolding ◌-ℤ◌
  align_on e primary secondary =
      let offset = int64 secondary.stream_index -ℤ int64 primary.stream_index in
      let s = record e.stats { alignment_offset_packets = offset; alignment_confidence = 100 } in
      record e {
        alignment = record {
          has_alignment = true;
          offset_packets = offset;
          confidence = 100;
          consecutive_matches = add32 e.alignment.consecutive_matches 1;
          consecutive_misses = 0;
        };
        stats =
            observe_latency F s primary.arrival_time_ns secondary.arrival_time_ns
              e.config.max_secondary_latency_ns;
      }

  -- The match is of the other stream; the primary's record comes first.
  unfoldable pub align_on_match : Engine D → ℕ → PacketRecord → PacketRecord → Engine D
  unfolding align_on
  align_on_match e stream_id r m = if stream_id == 0 then align_on e r m else align_on e m r

  -- `update_alignment`.
  unfoldable pub update_alignment : Engine D → ℕ → PacketRecord → Engine D
  unfolding align_on_match lose_confidence is_informative
  update_alignment e stream_id r =
      let wide : Engine D = elim (wide_match e stream_id r) [
        | none ↦ lose_confidence e
        | some m ↦ align_on_match e stream_id r m
      ] in
      if not (is_informative r) then e else elim (narrow_match e stream_id r) [
        | some m ↦ align_on_match e stream_id r m
        | none ↦ if not (r.stream_index % 512 == 0) then miss e else wide
      ]

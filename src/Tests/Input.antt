-- ===== src/Tests/Input.antt =====
-- Tests of the parser, the statistics of the input, the datagrams in and the datagrams out.
use mathlib.Core.Logic.{◌↔◌}
use two_stream_recovery.Base.{
  [], ◌⊎◌, none, ◌∷◌, some, length, ◌^◌, ◌++◌, add64, refl, ◌==◌, ◌<◌, if◌then◌else◌, arith, ◌+◌,
  true, ◌≡◌, false,
}
use two_stream_recovery.Ts.{Packet, TsPacketInfo, parse}
use two_stream_recovery.Ts.Parse.{IsWellFormed, AreBytes, parse-IsWellFormed, parse_bounds}
use two_stream_recovery.Ts.Roundtrip.{Fields, write_packet, parse-write_packet}
use two_stream_recovery.Engine.State.{ok, error}
use two_stream_recovery.OutputUdp.{OutputUdp, sent_whole, send_ts_packet, flush}
use two_stream_recovery.OutputUdp.Batches.{
  IsBatched, taken, send_ts_packet-IsBatched, send_ts_packet_refused,
}
use two_stream_recovery.Datagram.{
  resync_loop, has_sync_run, find_resync_offset, packet_loop, process_datagram,
}
use two_stream_recovery.Datagram.Bounds.{IsFirst, find_resync_offset-IsFirst}
use two_stream_recovery.Datagram.Rounds.{packet_loop_enough}
use two_stream_recovery.Datagram.Partial.{process_datagram_short}
use two_stream_recovery.Tests.{units, blank}

abbrev pub no_info : TsPacketInfo
no_info = record {
  pid = 0;
  continuity_counter = 0;
  adaptation_field_control = 0;
  transport_error = false;
  payload_unit_start = false;
  has_payload = false;
  has_adaptation = false;
  discontinuity_indicator = false;
  has_pcr = false;
  pcr_base = 0;
  pcr_extension = 0;
  is_null = false;
}

-- A packet of 0x47 bytes only.
abbrev all_sync : Packet
all_sync i = 0x47

all_sync-AreBytes : AreBytes all_sync
all_sync-AreBytes i = omega arith

-- A payload packet of PID 0x147.
abbrev pub plain : Packet
plain i = if i == 0 then 0x47 else if i == 3 then 0x10 else 1

plain-AreBytes : AreBytes plain
plain-AreBytes i = ground arith

plain_parses : (parse plain no_info).0 ≡ true
unfolding parse
plain_parses = refl

parse-IsWellFormed_example : ((parse plain no_info).0 ≡ true) ↔ IsWellFormed plain
parse-IsWellFormed_example = parse-IsWellFormed plain no_info

parse_bounds_example :
    let out = (parse plain no_info).1 in
    (out.pid < 8192)
    × (out.continuity_counter < 16)
    × (out.pcr_base < 2 ^ 33)
    × (out.pcr_extension < 512)
    × (out.is_null ≡ true → out.pid ≡ 0x1fff)
    × ((out.has_payload ≡ true) ⊎ (out.has_adaptation ≡ true))
parse_bounds_example = parse_bounds plain no_info plain-AreBytes plain_parses

abbrev fields : Fields
fields = record {
  pid = 100;
  counter = 6;
  error = false;
  start = true;
  discontinuity = false;
  base = 90_000;
  extension = 299;
}

parse-write_packet_example :
    let out = (parse (write_packet fields) no_info).1 in
    ((parse (write_packet fields) no_info).0 ≡ true)
    × (out.pid ≡ 100)
    × (out.continuity_counter ≡ 6)
    × (out.transport_error ≡ false)
    × (out.payload_unit_start ≡ true)
    × (out.discontinuity_indicator ≡ false)
    × (out.has_payload ≡ true)
    × (out.has_pcr ≡ true)
    × (out.pcr_base ≡ 90_000)
    × (out.pcr_extension ≡ 299)
parse-write_packet_example =
    parse-write_packet fields no_info (omega arith) (omega arith) (omega arith) (omega arith)

-- Six packets wait; the first call of the network takes 1316 bytes, the later ones fail.
abbrev six : OutputUdp
six = record {
  sends = λ n. if n == 0 then some 1316 else none;
  calls = 0;
  pending = plain ∷ plain ∷ plain ∷ plain ∷ plain ∷ plain ∷ [];
  datagrams = [];
}

abbrev six_later : OutputUdp
six_later = record six { calls = 1 }

six-IsBatched : IsBatched six
six-IsBatched = record { whole = tt; room = omega arith }

six_later-IsBatched : IsBatched six_later
six_later-IsBatched = record { whole = tt; room = omega arith }

six_goes : (send_ts_packet six all_sync).0 ≡ ok
unfolding send_ts_packet flush
six_goes = refl

six_later_fails : (send_ts_packet six_later all_sync).0 ≡ error
unfolding send_ts_packet flush
six_later_fails = refl

send_ts_packet-IsBatched_example :
    IsBatched (send_ts_packet six all_sync).1
    × (taken (send_ts_packet six all_sync).1 ≡ taken six ++ (all_sync ∷ []))
send_ts_packet-IsBatched_example = send_ts_packet-IsBatched six all_sync six-IsBatched six_goes

send_ts_packet_refused_example :
    (sent_whole (six_later.sends six_later.calls) ≡ false)
    × (length six_later.pending ≡ 6)
    × (send_ts_packet (send_ts_packet six_later all_sync).1 plain
        ≡ (error, (send_ts_packet six_later all_sync).1))
send_ts_packet_refused_example =
    send_ts_packet_refused six_later all_sync plain six_later-IsBatched six_later_fails

resync_found : find_resync_offset all_sync 600 3 ≡ some 4
unfolding find_resync_offset resync_loop has_sync_run
resync_found = refl

find_resync_offset-IsFirst_example : IsFirst all_sync 600 (3 + 1) 4
find_resync_offset-IsFirst_example = find_resync_offset-IsFirst all_sync 600 3 4 resync_found

packet_loop_enough_example :
    packet_loop units no_info 188 blank 0 plain 188 0
    ≡ packet_loop units no_info 1000 blank 0 plain 188 0
packet_loop_enough_example =
    packet_loop_enough units no_info 188 1000 blank 0 plain 188 0 (omega arith) (omega arith)

process_datagram_short_example :
    ((process_datagram units no_info blank 0 plain 100).0 ≡ ok)
    × ((process_datagram units no_info blank 0 plain 100).1.env ≡ blank.env)
    × ((process_datagram units no_info blank 0 plain 100).1.stats.input_datagrams 0
        ≡ add64 (blank.stats.input_datagrams 0) 1)
    × ((process_datagram units no_info blank 0 plain 100).1.stats.sync_errors 0
        ≡ add64 (blank.stats.sync_errors 0) 1)
    × ((process_datagram units no_info blank 0 plain 100).1.stats.partial_datagrams 0
        ≡ add64 (add64 (blank.stats.partial_datagrams 0) 1) 1)
process_datagram_short_example =
    process_datagram_short units no_info blank 0 plain 100 (omega arith) (omega arith) (omega arith)

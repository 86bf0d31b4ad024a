-- ===== src/Tests.antt =====
-- Small streams for the tests, and the tests of the development.
mod Recovery
mod Streams
mod Input
mod Program
mod Network
use two_stream_recovery.Base.{pos, ◌==◌, ◌∷◌, false, true, ◌*◌, if◌then◌else◌, some, ℕ, List, []}
use two_stream_recovery.Stats.{Stats}
use two_stream_recovery.Stats.Double.{Double}
use two_stream_recovery.Engine.State.{
  Engine, Env, Config, PacketRecord, PacketHistory, OutputPidState, DelayQueue,
}
use two_stream_recovery.Engine.Boundary.{Candidates}
use two_stream_recovery.Engine.Init.{default_config, init_with_config}
use two_stream_recovery.Stats.Init

-- Arithmetic on a type with one value.
abbrev units : Double (Unit {0})
units = record {
  of_int = λ i. tt;
  literal = λ n d. tt;
  add = λ a b. tt;
  sub = λ a b. tt;
  mul = λ a b. tt;
  div = λ a b. tt;
  neg = λ a. tt;
  lt = λ a b. false;
  eq = λ a b. false;
}

-- A clock that ticks, and a sink that takes every packet.
abbrev env : Env
env = record {
  clock = λ n. some (10, n);
  wall = λ n. n;
  reads = 0;
  accepts = λ n. true;
  offers = 0;
  sent = [];
}

abbrev zero_stats : Stats (Unit {0})
zero_stats = Init.init units 1000

abbrev blank : Engine (Unit {0})
blank = init_with_config units env zero_stats default_config

-- A packet of PID 100 with a payload that is its counter.
abbrev packet_of : ℕ → ℕ → PacketRecord
packet_of index cc = record {
  source_stream_id = 0;
  stream_index = index;
  arrival_time = 0;
  arrival_time_ns = 1000 * index;
  pid = 100;
  continuity_counter = cc;
  has_payload = true;
  has_pcr = false;
  is_null = false;
  transport_error = false;
  discontinuity_indicator = false;
  stream_continuity_errors = 0;
  stream_duplicate_counters = 0;
  pcr_value = 0;
  hash = cc;
  packet = λ i. cc;
}

abbrev in_error : PacketRecord
in_error = record (packet_of 11 6) { transport_error = true }

-- Three records, or the first two of them.
abbrev cells : PacketRecord → PacketRecord → PacketRecord → ℕ → PacketRecord
cells a b c i = if i == 0 then a else if i == 1 then b else c

abbrev history_of : PacketRecord → PacketRecord → PacketRecord → ℕ → PacketHistory
history_of a b c n = record { records = cells a b c; capacity = 16; start = 0; count = n }

abbrev full_history : PacketHistory
full_history = history_of (packet_of 10 5) (packet_of 11 6) (packet_of 12 7) 3

abbrev short_history : PacketHistory
short_history = history_of (packet_of 10 5) (packet_of 11 7) (packet_of 12 8) 2

abbrev tei_history : PacketHistory
tei_history = history_of (packet_of 10 5) in_error (packet_of 12 7) 3

abbrev counter_5 : OutputPidState
counter_5 = record {
  valid = true;
  continuity_counter = 5;
  last_arrival_time_ns = 0;
  last_recovered_secondary_arrival_ns = 0;
  last_primary_continuity_errors = 0;
}

-- The counter 5 of PID 100 has been output, at the index 10 of both streams.
abbrev behind_5 : PacketHistory → Engine (Unit {0})
behind_5 primary = record blank {
  history = λ i. if i == 0 then primary else full_history;
  output_pid_state = λ pid. counter_5;
  last_primary_anchor = record { valid = true; primary_index = 10; secondary_index = 10 };
  alignment = record {
    has_alignment = true;
    offset_packets = pos 0;
    confidence = 100;
    consecutive_matches = 1;
    consecutive_misses = 0;
  };
}

-- The primary lacks the counter 6.
abbrev gap_engine : Engine (Unit {0})
gap_engine = behind_5 short_history

-- The primary has it with an error.
abbrev tei_engine : Engine (Unit {0})
tei_engine = behind_5 tei_history

abbrev one_candidate : Candidates
one_candidate = record { records = 2 ∷ []; truncated = false }

abbrev queue_of : ℕ → DelayQueue
queue_of n = record {
  records = cells (packet_of 10 5) (packet_of 11 6) (packet_of 12 7);
  capacity = 3;
  start = 0;
  count = n;
  delay_ns = 500;
}

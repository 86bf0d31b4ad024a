-- ===== src/Tests/Program.antt =====
-- Tests of whole runs of the engine and of the program.
use two_stream_recovery.Base.{Bool, some, ℕ, arith, pos, true, false, ◌≡◌, refl, [], ◌∷◌, List}
use two_stream_recovery.Engine.State.{Engine, Status, ok}
use two_stream_recovery.Engine.Init.{default_config, init_with_config}
use two_stream_recovery.Engine.Push.{push_packet}
use two_stream_recovery.Engine.Push.WellFormed.{IsWellFormed}
use two_stream_recovery.Engine.Drain.Loop.{drain, drain_loop, flush}
use two_stream_recovery.Engine.Drain.Ends.{drain_loop_enough}
use two_stream_recovery.Engine.Drain.Flush.{drain-ok, flush_complete}
use two_stream_recovery.Engine.Reachable.{started, received, drained, Reachable-IsWellFormed}
use two_stream_recovery.RunLoop.{Selected, interrupted, ready, not_ready, datagram, run}
use two_stream_recovery.RunLoop.Invariant.{run-IsWellFormed}
use two_stream_recovery.Tests.{units, env, zero_stats, blank, gap_engine, queue_of}
use two_stream_recovery.Tests.Network.{args, at_start}
use two_stream_recovery.CommandLine.{
  Options, parse, parse_args, option_name, opening, store, parse_u64, parse_u32,
}
use two_stream_recovery.InputUdp.{parse_url, address_of, with_port}
use two_stream_recovery.InputUdp.Socket.{Kernel, open_with_interface}
use two_stream_recovery.Base.Text.{
  same, strtoull, number, read_digits, skip_space, split_last, without_prefix,
}
use two_stream_recovery.RunLoop.Program.{Machine, primary_opened, secondary_opened, main}
use two_stream_recovery.RunLoop.Program.Closed.{main-closes}
use two_stream_recovery.Tests.Input.{no_info, plain}
use two_stream_recovery.InputUdp.Socket

-- A packet on the primary stream, a signal, and both streams at once.
abbrev rounds : List Selected
rounds =
    ready (datagram plain 188) not_ready
    ∷ interrupted
    ∷ ready (datagram plain 376) (datagram plain 188)
    ∷ []

-- A sink with nothing to send.
abbrev idle_sink : Engine (Unit {0}) → Status
idle_sink e = ok

run-IsWellFormed_example :
    IsWellFormed (run units no_info idle_sink env zero_stats default_config rounds).1
run-IsWellFormed_example =
    run-IsWellFormed units no_info idle_sink env zero_stats default_config rounds (omega arith)

abbrev given : Engine (Unit {0})
given = (push_packet units blank (pos 0) plain no_info).1

Reachable-IsWellFormed_example : IsWellFormed (drain given true).1
unfolding init_with_config
Reachable-IsWellFormed_example = Reachable-IsWellFormed units (drain given true).1 (
    drained given
      (received blank (started env zero_stats default_config) (pos 0) plain no_info (omega arith))
      true)

-- Three packets of the primary stream are waiting, the first behind a gap.
abbrev delayed : Engine (Unit {0})
delayed = record gap_engine { primary_queue = queue_of 3 }

flush_complete_example :
    ((flush idle_sink delayed).1.primary_queue.count ≡ 0)
    × ((flush idle_sink delayed).0 ≡ idle_sink (flush idle_sink delayed).1)
unfolding init_with_config
flush_complete_example = flush_complete idle_sink delayed (λ n. refl) refl

drain-ok_example : (drain delayed false).0 ≡ ok
unfolding init_with_config
drain-ok_example = drain-ok delayed false (λ n. refl)

drain_loop_enough_example : drain_loop 3 delayed true ≡ drain_loop 7 delayed true
drain_loop_enough_example = drain_loop_enough 3 7 delayed true (omega arith) (omega arith)

-- A system that grants everything and gives the descriptor `fd`.
abbrev granting : ℕ → Socket.System
granting fd = record {
  inet_pton = λ name. some 0xef010101;
  socket = some fd;
  sets_reuse_address = true;
  sets_reuse_port = true;
  binds = true;
  adds_membership = true;
  gets_flags = true;
  sets_flags = true;
}

abbrev machine : Machine (Unit {0})
machine = record {
  primary = granting 3;
  secondary = granting 4;
  output = record { calloc = some 9; socket = some 5; inet_pton = λ name. some 0x7f000001 };
  kernel = at_start;
  heap = λ block. false;
  env = env;
  web_opens = true;
  stats = zero_stats;
  rounds = rounds;
  flush_sink = idle_sink;
}

abbrev read : Options
read = (parse args).1

abbrev after_primary : Kernel
after_primary = (primary_opened machine read).2

abbrev after_secondary : Kernel
after_secondary = (secondary_opened (granting 4) read after_primary).2

granted : (f : ℕ → Bool) (n : ℕ) → f n ≡ false → (fd : ℕ) → some n ≡ some fd → f fd ≡ false
granted f n closed fd given = cc

second_free : after_primary.is_open 4 ≡ false
unfolding parse parse_args option_name opening store same parse_u32 parse_u64 strtoull number
    read_digits skip_space parse_url address_of with_port without_prefix split_last
    open_with_interface
second_free = refl

output_free : after_secondary.is_open 5 ≡ false
unfolding parse parse_args option_name opening store same parse_u32 parse_u64 strtoull number
    read_digits skip_space parse_url address_of with_port without_prefix split_last
    open_with_interface
output_free = refl

main-closes_example : (main units no_info machine args).1.is_open 4 ≡ false
main-closes_example =
    main-closes units no_info machine args (λ fd given. refl)
      (granted after_primary.is_open 4 second_free) (granted after_secondary.is_open 5 output_free)
      (λ block given. refl) 4

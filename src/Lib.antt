-- ===== src/Lib.antt =====
-- Two-stream recovery. The program receives the same MPEG transport stream over two paths, delays
-- the primary stream, fills the gaps of the primary from the secondary, takes the output over to the
-- secondary while the primary is silent, and sends the result by UDP.
--
-- How a packet goes: `process_datagram` (src/main.c) cuts a datagram into packets, parses each
-- (`ts_packet_parse`, src/ts_packet.c), counts it (src/report_stats.c) and pushes it into the engine
-- (`recovery_engine_push_packet`, src/recovery_engine.c). The engine keeps a history and a delay
-- queue for each stream, aligns the streams, and drains the queue of the primary: each packet whose
-- delay is over is checked against the continuity counters of the output, a gap in front of it is
-- filled from the history of the secondary where exactly one candidate explains it, and the packet
-- goes to the sink (src/packet_sink.h), which is the batching of src/output_udp.c.
--
-- The files:
--   Base            shared names; lists, 64-bit words and integers, rows of checks (Step), rings (Ring)
--   Ts              src/ts_packet.c
--   Stats           src/report_stats.h; Stats/Init, Observe, Latency, Rolling, Health are the parts of
--                   src/report_stats.c; Stats/Double is the arithmetic of `double`
--   Engine/State    src/recovery_engine.h; the other modules of Engine are src/recovery_engine.c:
--   Engine/History  packet_history_*            Engine/Queue     delay_queue_*
--   Engine/Match    tests on packets            Engine/Output    output_record, refusals
--   Engine/Input    observe_input_path_gap      Engine/Alignment update_alignment and its searches
--   Engine/Pcr      update_pcr_timing           Engine/Outage    the take-over and the return
--   Engine/Boundary find_secondary_boundary_matches
--   Engine/Recovery the recoveries: Content, Mixed, NullRegion and Tei are one validation and recovery
--                   each (the checks that the source writes out once more in the validations of the
--                   first and the third are Content/Checks and NullRegion/Checks), Unique is
--                   try_unique_candidate_recovery
--   Engine/Drain    recovery_engine_drain       Engine/Push      recovery_engine_push_packet
--   Engine/Init     recovery_engine_init and the configuration
--   Engine/Reachable the states that the calls of the engine lead to
--   OutputUdp       src/output_udp.c: the batching; OutputUdp/Open the URL and the socket
--   InputUdp        src/input_udp.c: the URL; InputUdp/Socket the socket and its group
--   CommandLine     src/command_line.c
--   WebServer       src/web_server.c: request and answer; WebServer/Send what is sent
--   Datagram        process_datagram of src/main.c
--   RunLoop         run_loop of src/main.c; RunLoop/Program is main
--   Tests           small streams on which the theorems are applied
--
-- How the code is translated. A struct is a record with the field names of the source, an enum a data
-- type, an array a function from the index, a pointer into the array of a history the index of its
-- record, NULL `none`. A function that changes the engine takes it and gives it back; the return
-- codes 0 and -1 are `ok` and `error`. A row of checks with early returns is a do block of `Step`.
-- Arithmetic on uint64_t is `add64`, `sub64`, `mul64`, which wrap; int64_t stream indices are integers
-- read by `int64`. What lies outside the program is in `Env`: the readings of the clocks, numbered, and
-- the answers of the sink. `double` is a parameter with its operations, about which nothing is assumed.
--
-- Bounds on loops. A loop over a count or a range is structural recursion on its length. The drain of
-- the primary queue has as many rounds as the queue has packets, since each round that goes on takes
-- one off; the loop over a datagram has as many as there are bytes, since each moves the offset on;
-- `send_all` has as many as there are bytes to send.
--
-- Strings are lists of bytes without the zero at their end (Base/Text), and strtoull, strcmp, strrchr
-- and the like are written out for them. The calls of the system that open a socket, wait for input,
-- read a file or send to a client are parameters that say what they return.
--
-- Not modelled: the log lines, the usage text, the reports as text and JSON, the opening of the web
-- server and its loop over the clients that wait (src/web_server.c), signals, and failures of
-- allocation in the engine. `main` is told whether the web server opens.
pub mod Base
pub mod Ts
pub mod Stats
pub mod Engine
pub mod OutputUdp
pub mod CommandLine
pub mod InputUdp
pub mod WebServer
pub mod Datagram
pub mod RunLoop
pub mod Tests

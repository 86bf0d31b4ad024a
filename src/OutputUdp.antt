-- ===== src/OutputUdp.antt =====
-- src/output_udp.h and src/output_udp.c: seven packets make a datagram. `sendto` is the network's:
-- `sends n` is what the `n`-th call returns (`none` is a negative result).
pub mod Batches
pub mod Open
use two_stream_recovery.Base.{
  ℕ, ◌+◌, ◌*◌, Bool, true, false, not, leb, ◌==◌, if◌then◌else◌, Option, none, some, List, [], ◌∷◌,
  ◌++◌, length,
}
use two_stream_recovery.Ts.{Packet, ts_packet_size}
use two_stream_recovery.Engine.State.{Status, ok, error}

abbrev pub packets_per_datagram : ℕ
packets_per_datagram = 7

abbrev pub payload_bytes : ℕ
payload_bytes = ts_packet_size * packets_per_datagram

-- `output_udp_t`; `pending` lists the packets in the buffer, so its length is `pending_packets`.
-- `datagrams` lists what the network took whole.
pub record OutputUdp : Type 0 where
  pub sends : ℕ → Option ℕ
  pub calls : ℕ
  pub pending : List Packet
  pub datagrams : List (List Packet)

-- `sent < 0 || (size_t)sent != OUTPUT_UDP_PAYLOAD_BYTES`, negated.
abbrev pub sent_whole : Option ℕ → Bool
sent_whole none = false
sent_whole (some n) = n == payload_bytes

-- `output_udp_flush`: only a full datagram is sent; anything else is dropped.
unfoldable pub flush : OutputUdp → Status × OutputUdp
flush o =
    let called = record o { calls = o.calls + 1 } in
    if length o.pending == 0
    then (ok, o)
    else if not (length o.pending == packets_per_datagram)
    then (ok, record o { pending = [] })
    else if not (sent_whole (o.sends o.calls))
    then (error, called)
    else (ok, record called { pending = []; datagrams = o.datagrams ++ (o.pending ∷ []) })

-- `output_udp_send_ts_packet`.
unfoldable pub send_ts_packet : OutputUdp → Packet → Status × OutputUdp
unfolding flush
send_ts_packet o p =
    let o' = record o { pending = o.pending ++ (p ∷ []) } in
    if leb packets_per_datagram (length o.pending)
    then (error, o)
    else if length o'.pending == packets_per_datagram
    then flush o'
    else (ok, o')

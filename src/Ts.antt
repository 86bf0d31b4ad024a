-- ===== src/Ts.antt =====
-- src/ts_packet.h and src/ts_packet.c: the header of an MPEG transport stream packet.
-- A packet is its array of 188 bytes, a function from the index; a byte is a number below 256.
-- `x & (2^k - 1)` is `x % 2 ^ k`, `x >> k` is `x / 2 ^ k`, and `|` of disjoint bits is a sum.
pub mod Parse
pub mod Roundtrip
use two_stream_recovery.Base.{
  ℕ, ◌+◌, ◌*◌, ◌/◌, ◌%◌, ◌≤◌, ◌<◌, Bool, true, false, not, ◌||◌, ◌&&◌, ltb, leb, ◌==◌, bit_set,
  if◌then◌else◌,
}

abbrev pub ts_packet_size : ℕ
ts_packet_size = 188

abbrev pub ts_sync_byte : ℕ
ts_sync_byte = 0x47

abbrev pub ts_null_pid : ℕ
ts_null_pid = 0x1fff

abbrev pub Packet : Type 0
Packet = ℕ → ℕ

pub record TsPacketInfo : Type 0 where
  pub pid : ℕ
  pub continuity_counter : ℕ
  pub adaptation_field_control : ℕ
  pub transport_error : Bool
  pub payload_unit_start : Bool
  pub has_payload : Bool
  pub has_adaptation : Bool
  pub discontinuity_indicator : Bool
  pub has_pcr : Bool
  pub pcr_base : ℕ
  pub pcr_extension : ℕ
  pub is_null : Bool

-- `ts_packet_has_sync`.
unfoldable pub has_sync : Packet → Bool
has_sync packet = packet 0 == ts_sync_byte

-- The fields read from the four header bytes, after the `memset`.
unfoldable pub header : Packet → TsPacketInfo
header packet =
    let pid : ℕ = packet 1 % 32 * 256 + packet 2 in
    let control : ℕ = packet 3 / 16 % 4 in
    record {
      pid = pid;
      continuity_counter = packet 3 % 16;
      adaptation_field_control = control;
      transport_error = bit_set (packet 1) 7;
      payload_unit_start = bit_set (packet 1) 6;
      has_payload = control == 1 || control == 3;
      has_adaptation = control == 2 || control == 3;
      discontinuity_indicator = false;
      has_pcr = false;
      pcr_base = 0;
      pcr_extension = 0;
      is_null = pid == ts_null_pid;
    }

-- `packet[6] << 25 | packet[7] << 17 | packet[8] << 9 | packet[9] << 1 | packet[10] >> 7`.
unfoldable pub read_pcr_base : Packet → ℕ
read_pcr_base packet =
    packet 6 * 0x2000000 + packet 7 * 0x20000 + packet 8 * 0x200 + packet 9 * 2 + packet 10 / 128

-- `(packet[10] & 0x01) << 8 | packet[11]`.
unfoldable pub read_pcr_extension : Packet → ℕ
read_pcr_extension packet = packet 10 % 2 * 256 + packet 11

-- The flags and the PCR of an adaptation field that fits the packet and is not empty.
unfoldable pub adaptation : Packet → TsPacketInfo → TsPacketInfo
unfolding read_pcr_base read_pcr_extension
adaptation packet info =
    if bit_set (packet 5) 4 && leb 7 (packet 4)
    then record info {
      discontinuity_indicator = bit_set (packet 5) 7;
      has_pcr = true;
      pcr_base = read_pcr_base packet;
      pcr_extension = read_pcr_extension packet;
    }
    else record info { discontinuity_indicator = bit_set (packet 5) 7; has_pcr = false }

-- `ts_packet_parse`: the return value, and what `*info` holds afterwards.
unfoldable pub parse : Packet → TsPacketInfo → Bool × TsPacketInfo
unfolding has_sync header adaptation
parse packet info =
    let info' = header packet in
    if not (has_sync packet)
    then (false, info)
    else if info'.adaptation_field_control == 0
    then (false, info')
    else if not info'.has_adaptation
    then (true, info')
    else if packet 4 == 0
    then (true, info')
    else if ltb ts_packet_size (5 + packet 4)
    then (false, info')
    else (true, adaptation packet info')

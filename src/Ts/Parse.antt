-- ===== src/Ts/Parse.antt =====
-- What `ts_packet_parse` of src/ts_packet.c accepts, and the range of what it reads.
use mathlib.Core.Logic.{◌↔◌}
use two_stream_recovery.Base.{ℕ, ◌+◌, ◌/◌, ◌%◌, ◌≤◌, ◌<◌, ◌^◌, ◌≡◌, ◌≢◌, ◌⊎◌, true, arith}
use two_stream_recovery.Ts.{Packet, TsPacketInfo, parse}

-- A packet that the parser should take: the sync byte, an adaptation field control that is not
-- reserved, and, if there is an adaptation field, one that fits the packet.
pub record IsWellFormed (packet : Packet) : Type 0 where
  pub sync : packet 0 ≡ 0x47
  pub control : packet 3 / 16 % 4 ≢ 0
  pub fits : 2 ≤ packet 3 / 16 % 4 → 5 + packet 4 ≤ 188

-- `ts_packet_parse` returns true exactly on the packets with the sync byte, an adaptation field
-- control other than the reserved 0, and an adaptation field, if any, that fits the 188 bytes.
pub parse-IsWellFormed :
    (packet : Packet) (info : TsPacketInfo) → ((parse packet info).0 ≡ true) ↔ IsWellFormed packet
unfolding parse
parse-IsWellFormed packet info = (λ h. ground arith, λ w. ground arith)

-- The bytes of the packet are bytes.
abbrev pub AreBytes : Packet → Type 0
AreBytes packet = (i : ℕ) → packet i < 256

-- When `ts_packet_parse` accepts a packet of bytes, the PID fits 13 bits, the continuity counter
-- 4 bits, the PCR base 33 bits and its extension 9 bits, `is_null` says that the PID is 0x1fff,
-- and there is a payload or an adaptation field.
pub parse_bounds :
    (packet : Packet) (info : TsPacketInfo)
    → AreBytes packet
    → (parse packet info).0 ≡ true
    → let out = (parse packet info).1 in
      (out.pid < 8192)
      × (out.continuity_counter < 16)
      × (out.pcr_base < 2 ^ 33)
      × (out.pcr_extension < 512)
      × (out.is_null ≡ true → out.pid ≡ 0x1fff)
      × ((out.has_payload ≡ true) ⊎ (out.has_adaptation ≡ true))
unfolding parse
parse_bounds packet info bytes h =
    ground (arith, bytes 2, bytes 6, bytes 7, bytes 8, bytes 9, bytes 10, bytes 11)

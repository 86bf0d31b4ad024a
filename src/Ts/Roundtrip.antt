-- ===== src/Ts/Roundtrip.antt =====
-- Writing a transport packet header and reading it back by src/ts_packet.c.
use two_stream_recovery.Base.{
  ℕ, ◌+◌, ◌*◌, ◌/◌, ◌%◌, ◌<◌, ◌^◌, ◌≡◌, Bool, true, arith, ◌==◌, if◌then◌else◌,
}
use two_stream_recovery.Ts.{Packet, TsPacketInfo, parse}

-- What a multiplexer writes: the layout of ISO 13818-1 for a payload packet whose adaptation field
-- holds a PCR.
pub record Fields : Type 0 where
  pub pid : ℕ
  pub counter : ℕ
  pub error : Bool
  pub start : Bool
  pub discontinuity : Bool
  pub base : ℕ
  pub extension : ℕ

abbrev flag : Bool → ℕ → ℕ
flag b weight = if b then weight else 0

pub write_packet : Fields → Packet
write_packet f i =
    if i == 0
    then 0x47
    else if i == 1
    then flag f.error 128 + flag f.start 64 + f.pid / 256
    else if i == 2
    then f.pid % 256
    else if i == 3
    then 0x30 + f.counter
    else if i == 4
    then 7
    else if i == 5
    then flag f.discontinuity 128 + 16
    else if i == 6
    then f.base / 0x2000000
    else if i == 7
    then f.base / 0x20000 % 256
    else if i == 8
    then f.base / 0x200 % 256
    else if i == 9
    then f.base / 2 % 256
    else if i == 10
    then f.base % 2 * 128 + f.extension / 256
    else if i == 11
    then f.extension % 256
    else 0xff

-- A packet written with a 13-bit PID, a 4-bit counter, a 33-bit PCR base and a 9-bit extension is
-- accepted by `ts_packet_parse`, which reads back the same PID, counter, flags and PCR.
pub parse-write_packet :
    (f : Fields) (info : TsPacketInfo)
    → f.pid < 8192
    → f.counter < 16
    → f.base < 2 ^ 33
    → f.extension < 512
    → let out = (parse (write_packet f) info).1 in
      ((parse (write_packet f) info).0 ≡ true)
      × (out.pid ≡ f.pid)
      × (out.continuity_counter ≡ f.counter)
      × (out.transport_error ≡ f.error)
      × (out.payload_unit_start ≡ f.start)
      × (out.discontinuity_indicator ≡ f.discontinuity)
      × (out.has_payload ≡ true)
      × (out.has_pcr ≡ true)
      × (out.pcr_base ≡ f.base)
      × (out.pcr_extension ≡ f.extension)
unfolding parse write_packet
parse-write_packet f info hp hc hb he = ground arith

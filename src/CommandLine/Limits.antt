-- ===== src/CommandLine/Limits.antt =====
-- src/command_line.c: what the options satisfy that `command_line_parse` accepts.
use two_stream_recovery.Base.{List, true, none, ◌^◌, ◌<◌, Option, some, ◌≤◌, ◌≡◌, ℕ, ◌⊎◌, ◌*◌, ◌-◌}
use two_stream_recovery.Base.Text.{Text, IsNumeral}
use mathlib.Core.List.{Memᴰ}
use two_stream_recovery.Engine.Init.{default_config}
use two_stream_recovery.CommandLine.{
  Options, ParseResult, invalid, Opening, quit, proceed, wants_value, is_set,
}

-- One of the arguments is a numeral of the number.
abbrev pub IsGiven : List Text → ℕ → Type 0
IsGiven all n = (value : Text) × Memᴰ value all × IsNumeral value n

-- A number is the default or that of one of the arguments, and within its limit.
abbrev pub IsNumber : List Text → ℕ → ℕ → ℕ → Type 0
IsNumber all default limit n = ((n ≡ default) ⊎ IsGiven all n) × (n ≤ limit)

-- A time is the default, or the milliseconds of one of the arguments in nanoseconds; it fits into 64
-- bits.
abbrev pub IsTime : List Text → ℕ → ℕ → Type 0
IsTime all default t =
    ((t ≡ default) ⊎ ((n : ℕ) × IsGiven all n × (t ≡ n * 1_000_000))) × (t < 2 ^ 64)

-- What the numbers among the options are.
abbrev pub IsWithinLimits : List Text → Options → Type 0
IsWithinLimits all o =
    IsNumber all 0 65535 o.http_port
    × IsNumber all default_config.max_content_burst_packets 255
        o.recovery_config.max_content_burst_packets
    × IsNumber all default_config.min_alignment_confidence 100
        o.recovery_config.min_alignment_confidence
    × IsNumber all default_config.history_ms (2 ^ 64 - 1) o.recovery_config.history_ms
    × IsTime all default_config.primary_delay_ns o.recovery_config.primary_delay_ns
    × IsTime all default_config.max_secondary_latency_ns o.recovery_config.max_secondary_latency_ns
    × IsTime all default_config.alignment_window_ns o.recovery_config.alignment_window_ns
    × IsTime all default_config.primary_outage_ns o.recovery_config.primary_outage_ns
    × IsTime all default_config.primary_return_ns o.recovery_config.primary_return_ns

-- The numbers are those of the arguments and within their limits, and both input URLs are there.
pub record IsAccepted (all : List Text) (o : Options) : Type 0 where
  pub limits : IsWithinLimits all o
  pub primary : is_set o.input_primary_url ≡ true
  pub secondary : is_set o.input_secondary_url ≡ true

-- The arguments from an option on, by what its name leads to.
continued :
    Options
    → ParseResult × Options
    → (Options → ParseResult × Options)
    → Opening
    → ParseResult × Options
continued o on_value on (quit r) = (r, o)
continued o on_value on (proceed o') = on o'
continued o on_value on wants_value = on_value

-- The value is stored, and the loop goes on behind it.
stored : Options → (Options → ParseResult × Options) → Option Options → ParseResult × Options
stored o on none = (invalid, o)
stored o on (some o') = on o'

-- ===== src/CommandLine.antt =====
-- src/command_line.h and src/command_line.c: the options of the program. A string is the list of its
-- bytes, and `none` is the NULL pointer. What is printed on an error is left out.
pub mod Limits
pub mod Values
use two_stream_recovery.Base.{
  mul64, ◌/◌, ◌-◌, ◌%◌, ◌^◌, ltb, true, ◌==◌, [], not, ◌||◌, Bool, ◌∷◌, some, false, if◌then◌else◌,
  ℕ, none, Option, List,
}
use two_stream_recovery.Base.Text.{Text, codes, same, is_empty, strtoull}
use two_stream_recovery.Engine.State.{Config}
use two_stream_recovery.Engine.Init.{default_config}

-- `command_line_options_t`.
pub record Options : Type 0 where
  pub input_primary_url : Option Text
  pub input_secondary_url : Option Text
  pub input_primary_interface : Option Text
  pub input_secondary_interface : Option Text
  pub output_url : Text
  pub http_port : ℕ
  pub console_report : Bool
  pub recovery_config : Config

-- `memset`, `DEFAULT_OUTPUT_URL` and `recovery_engine_default_config`.
abbrev pub default_options : Options
default_options = record {
  input_primary_url = none;
  input_secondary_url = none;
  input_primary_interface = none;
  input_secondary_interface = none;
  output_url = codes "udp://127.0.0.1:4500";
  http_port = 0;
  console_report = false;
  recovery_config = default_config;
}

-- `parse_u64_option`; `none` is -1.
unfoldable pub parse_u64 : Text → Option ℕ
unfolding strtoull
parse_u64 value =
    let parsed = strtoull value in
    if not parsed.in_range || not parsed.converted || not (is_empty parsed.rest)
    then none
    else some parsed.value

-- `parse_u64_ms_option`: milliseconds become nanoseconds.
unfoldable pub parse_u64_ms : Text → Option ℕ
unfolding strtoull
parse_u64_ms value =
    let parsed = strtoull value in
    if not parsed.in_range
      || not parsed.converted
      || not (is_empty parsed.rest)
      || ltb ((2 ^ 64 - 1) / 1_000_000) parsed.value
    then none
    else some (mul64 parsed.value 1_000_000)

abbrev pub at_most : ℕ → Option ℕ → Option ℕ
at_most limit none = none
at_most limit (some n) = if ltb limit n then none else some (n % 2 ^ 32)

-- `parse_u32_option`.
unfoldable pub parse_u32 : Text → ℕ → Option ℕ
unfolding parse_u64
parse_u32 value limit = at_most limit (parse_u64 value)

-- The options by their names.
pub data OptionName : Type 0 where
  primary_url secondary_url primary_interface secondary_interface output : OptionName
  http report delay latency window history outage return_after burst confidence : OptionName
  help unknown : OptionName

-- The chain of `strcmp`.
unfoldable pub option_name : Text → OptionName
unfolding same
option_name name =
    if same name (codes "--input-primary-url")
    then primary_url
    else if same name (codes "--input-secondary-url")
    then secondary_url
    else if same name (codes "--input-primary-interface")
    then primary_interface
    else if same name (codes "--input-secondary-interface")
    then secondary_interface
    else if same name (codes "--output-url")
    then output
    else if same name (codes "--http-port")
    then http
    else if same name (codes "--console-report")
    then report
    else if same name (codes "--primary-delay-ms")
    then delay
    else if same name (codes "--max-secondary-latency-ms")
    then latency
    else if same name (codes "--alignment-window-ms")
    then window
    else if same name (codes "--history-ms")
    then history
    else if same name (codes "--primary-outage-ms")
    then outage
    else if same name (codes "--primary-return-ms")
    then return_after
    else if same name (codes "--max-content-burst-packets")
    then burst
    else if same name (codes "--min-alignment-confidence")
    then confidence
    else if same name (codes "--help") || same name (codes "-h")
    then help
    else unknown

-- 0, 1 and -1.
pub data ParseResult : Type 0 where
  parsed help_wanted invalid : ParseResult

-- What the name of an option leads to: the function returns, the loop goes on, or a value is due.
pub data Opening : Type 0 where
  quit : ParseResult → Opening
  proceed : Options → Opening
  wants_value : Opening

unfoldable pub opening : OptionName → Options → Opening
opening http o = if not (o.http_port == 0) then quit invalid else wants_value
opening report o =
    if o.console_report then quit invalid else proceed (record o { console_report = true })
opening help o = quit help_wanted
opening unknown o = quit invalid
opening _ o = wants_value

-- `*target != NULL`.
abbrev pub is_set : Option Text → Bool
is_set none = false
is_set (some url) = true

abbrev pub configured : Options → Option ℕ → (ℕ → Config) → Option Options
configured o none set = none
configured o (some n) set = some (record o { recovery_config = set n })

abbrev pub listening : Options → Option ℕ → Option Options
listening o none = none
listening o (some port) = if port == 0 then none else some (record o { http_port = port % 2 ^ 16 })

-- The value of an option is stored; `none` is -1.
unfoldable pub store : OptionName → Text → Options → Option Options
unfolding parse_u64 parse_u64_ms parse_u32
store primary_url value o =
    if is_set o.input_primary_url then none else some (record o { input_primary_url = some value })
store secondary_url value o =
    if is_set o.input_secondary_url
    then none
    else some (record o { input_secondary_url = some value })
store primary_interface value o =
    if is_set o.input_primary_interface
    then none
    else some (record o { input_primary_interface = some value })
store secondary_interface value o =
    if is_set o.input_secondary_interface
    then none
    else some (record o { input_secondary_interface = some value })
store output value o = some (record o { output_url = value })
store http value o = listening o (parse_u32 value 65535)
store report value o = some o
store delay value o =
    configured o (parse_u64_ms value) (λ n. record o.recovery_config { primary_delay_ns = n })
store latency value o =
    configured o (parse_u64_ms value)
      (λ n. record o.recovery_config { max_secondary_latency_ns = n })
store window value o =
    configured o (parse_u64_ms value) (λ n. record o.recovery_config { alignment_window_ns = n })
store history value o =
    configured o (parse_u64 value) (λ n. record o.recovery_config { history_ms = n })
store outage value o =
    configured o (parse_u64_ms value) (λ n. record o.recovery_config { primary_outage_ns = n })
store return_after value o =
    configured o (parse_u64_ms value) (λ n. record o.recovery_config { primary_return_ns = n })
store burst value o =
    configured o (parse_u32 value 255)
      (λ n. record o.recovery_config { max_content_burst_packets = n })
store confidence value o =
    configured o (parse_u32 value 100)
      (λ n. record o.recovery_config { min_alignment_confidence = n })
store help value o = some o
store unknown value o = some o

-- After the loop.
abbrev pub finish : Options → ParseResult × Options
finish o =
    if not (is_set o.input_primary_url) || not (is_set o.input_secondary_url)
    then (invalid, o)
    else (parsed, o)

-- The loop over the arguments behind the name of the program.
unfoldable pub parse_args : List Text → Options → ParseResult × Options
unfolding option_name opening store
parse_args [] o = finish o
parse_args (name ∷ []) o = elim (opening (option_name name) o) [
  | quit r ↦ (r, o)
  | proceed o' ↦ finish o'
  | wants_value ↦ (invalid, o)
]
parse_args (name ∷ value ∷ args) o = elim (opening (option_name name) o) [
  | quit r ↦ (r, o)
  | proceed o' ↦ parse_args (value ∷ args) o'
  | wants_value ↦ elim (store (option_name name) value o) [
    | none ↦ (invalid, o)
    | some o' ↦ parse_args args o'
  ]
]

-- `command_line_parse`.
unfoldable pub parse : List Text → ParseResult × Options
unfolding parse_args
parse args = parse_args args default_options

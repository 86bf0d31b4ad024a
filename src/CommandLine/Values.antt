-- ===== src/CommandLine/Values.antt =====
-- src/command_line.c: the numbers that the options take.
use two_stream_recovery.Base.{
  ◌∙◌, ◌*◌, arith, none, true, ltb, if◌then◌else◌, ◌-◌, some, ◌≡◌, ◌∷◌, ◌^◌, ◌<◌, ℕ, refl,
}
use two_stream_recovery.Base.Text.Decimal.{
  decimal, strtoull-decimal, strtoull-minus, number-decimal,
}
use two_stream_recovery.CommandLine.{parse_u64, parse_u64_ms, parse_u32}

-- A decimal numeral of 64 bits is read as its number: `parse_u64_option` takes it as it is,
-- `parse_u64_ms_option` as milliseconds, if the nanoseconds fit into 64 bits too, and
-- `parse_u32_option` if it is not above the limit.
pub parse-decimal :
    (n limit : ℕ)
    → n < 2 ^ 64
    → limit < 2 ^ 32
    → (parse_u64 (decimal n) ≡ some n)
      × (parse_u64_ms (decimal n) ≡ (if ltb 18446744073709 n then none else some (n * 1_000_000)))
      × (parse_u32 (decimal n) limit ≡ (if ltb limit n then none else some n))
unfolding parse_u64 parse_u64_ms parse_u32
parse-decimal n limit small bound =
    let read = strtoull-decimal n small in
    rw (read, parse_u64, parse_u64_ms, parse_u32) (refl, ground arith, ground arith)

-- A minus sign is no error: `strtoull` wraps the value around, so `parse_u64_option` takes the numeral
-- of any `n` with a minus sign in front for `2 ^ 64 - n`.
pub parse_u64-minus :
    (n : ℕ) → 0 < n → n < 2 ^ 64 → parse_u64 (b'-' ∷ decimal n) ≡ some (2 ^ 64 - n)
unfolding parse_u64
parse_u64-minus n positive small =
    let negative : ltb 0 n ≡ true = ground arith in
    let read = strtoull-minus (decimal n) ∙ number-decimal true n small in
    rw (read, negative, parse_u64) refl

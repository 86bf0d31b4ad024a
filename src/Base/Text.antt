-- ===== src/Base/Text.antt =====
-- Strings as lists of bytes, without the zero byte at their end, and what the C library does with
-- them.
pub mod Decimal
use Prim.Native.Char.{code}
use Prim.Native.String.{String}
use two_stream_recovery.Base.Lists.{length}
use two_stream_recovery.Base.Tests.{leb, ltb, ◌==◌, if◌then◌else◌}
use Prim.Native.Nat.{ℕ, zero, suc, ◌+◌, ◌-◌, ◌*◌, ◌^◌}
use mathlib.Core.Bool.{Bool, true, false, not, ◌&&◌, ◌||◌}
use mathlib.Core.Path.{◌≡◌}
use mathlib.Core.Option.{Option, none, some}
use mathlib.Core.List.{List, [], ◌∷◌}

abbrev pub Text : Type 0
Text = List ℕ

-- The bytes of an ASCII literal.
abbrev pub codes : String → Text
codes String.[] = []
codes (String.◌∷◌ c s) = code c ∷ codes s

-- `strcmp(a, b) == 0`.
unfoldable pub same : Text → Text → Bool
same [] [] = true
same [] (d ∷ t) = false
same (c ∷ s) [] = false
same (c ∷ s) (d ∷ t) = c == d && same s t

abbrev pub is_empty : Text → Bool
is_empty [] = true
is_empty (c ∷ s) = false

-- The bytes behind a prefix that is there.
unfoldable pub without_prefix : Text → Text → Option Text
without_prefix [] s = some s
without_prefix (p ∷ ps) [] = none
without_prefix (p ∷ ps) (c ∷ s) = if p == c then without_prefix ps s else none

abbrev pub before_it : ℕ → Option (Text × Text) → ℕ → Text → Option (Text × Text)
before_it c (some (before, after)) sought s = some (c ∷ before, after)
before_it c none sought s = if c == sought then some ([], s) else none

-- `strrchr`: what stands before the last such byte, and what behind it.
unfoldable pub split_last : ℕ → Text → Option (Text × Text)
split_last sought [] = none
split_last sought (c ∷ s) = before_it c (split_last sought s) sought s

-- `isspace` and `isdigit` in the "C" locale.
abbrev pub is_space : ℕ → Bool
is_space c = c == 32 || (leb 9 c && leb c 13)

abbrev pub is_digit : ℕ → Bool
is_digit c = leb b'0' c && leb c b'9'

unfoldable pub skip_space : Text → Text
skip_space [] = []
skip_space (c ∷ s) = let rest = skip_space s in if is_space c then rest else c ∷ s

-- The value of the digits, added to those read before, and what stands behind them.
unfoldable pub read_digits : ℕ → Text → ℕ × Text
read_digits value [] = (value, [])
read_digits value (c ∷ s) =
    let rest = read_digits (10 * value + (c - b'0')) s in
    if is_digit c then rest else (value, c ∷ s)

-- A number that `strtoull` or `strtoul` has read: the value, `*end`, whether there was a digit, and
-- whether errno stayed 0.
pub record Number : Type 0 where
  pub value : ℕ
  pub rest : Text
  pub converted : Bool
  pub in_range : Bool

abbrev pub starts_with_digit : Text → Bool
starts_with_digit [] = false
starts_with_digit (c ∷ s) = is_digit c

-- The digits behind the sign. Out of range, the value is the largest; a negative value in range
-- wraps around.
unfoldable pub number : Bool → Text → Number
number negative s =
    let (value, rest) = read_digits 0 s in
    let wrapped : ℕ = if negative && ltb 0 value then 2 ^ 64 - value else value in
    record {
      value = if ltb value (2 ^ 64) then wrapped else 2 ^ 64 - 1;
      rest = rest;
      converted = starts_with_digit s;
      in_range = ltb value (2 ^ 64);
    }

abbrev pub signed : Text → Number
signed [] = number false []
signed (c ∷ s) =
    if c == b'-' then number true s else if c == b'+' then number false s else number false (c ∷ s)

-- `strtoull(s, &end, 10)`, and `strtoul`, whose type has 64 bits too.
unfoldable pub strtoull : Text → Number
unfolding number
strtoull s = signed (skip_space s)

-- The whole text is a number in range, and that is its value.
pub record IsNumeral (text : Text) (n : ℕ) : Type 0 where
  pub converted : (strtoull text).converted ≡ true
  pub in_range : (strtoull text).in_range ≡ true
  pub whole : is_empty (strtoull text).rest ≡ true
  pub value : (strtoull text).value ≡ n

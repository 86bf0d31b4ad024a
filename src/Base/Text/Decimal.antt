-- ===== src/Base/Text/Decimal.antt =====
-- Decimal numerals, and that `strtoull` reads them.
use two_stream_recovery.Base.{
  sym, refl, ◌∙◌, ◌==◌, append_assoc, inr, inl, ◌&&◌, false, append-nil, Bool, Bool-cases, true, ap,
  arith, ltb, ◌∷◌, ◌++◌, if◌then◌else◌, ◌≡◌, [],
}
use two_stream_recovery.Base.Text.{
  is_space, starts_with_digit, Text, is_digit, read_digits, strtoull, number, skip_space,
}
use Prim.Native.Nat.{ℕ, zero, suc, ◌+◌, ◌-◌, ◌*◌, ◌/◌, ◌%◌, ◌^◌, ◌<◌}

-- The numeral of a number below `10 ^ fuel`.
unfoldable pub numeral : ℕ → ℕ → Text
numeral zero n = []
numeral (suc fuel) n =
    let front = numeral fuel (n / 10) in
    if ltb n 10 then (b'0' + n) ∷ [] else front ++ ((b'0' + n % 10) ∷ [])

-- `printf("%llu", n)`: 20 digits are enough for 64 bits.
unfoldable pub decimal : ℕ → Text
unfolding numeral
decimal n = numeral 20 n

step :
    (value d : ℕ) (rest : Text)
    → d < 10
    → read_digits value ((b'0' + d) ∷ rest) ≡ read_digits (10 * value + d) rest
unfolding read_digits
step value d rest small =
    let digit : is_digit (b'0' + d) ≡ true = ground arith in
    let same_value : 10 * value + (b'0' + d - b'0') ≡ 10 * value + d = omega arith in
    rw (digit, same_value, read_digits) refl

read_digits-numeral :
    (fuel n : ℕ) (rest : Text)
    → n < 10 ^ fuel
    → read_digits 0 (numeral fuel n ++ rest) ≡ read_digits n rest
unfolding numeral
read_digits-numeral zero n rest h = let nothing : n ≡ 0 = omega arith in rw nothing refl
read_digits-numeral (suc fuel) n rest h = elim (Bool-cases (ltb n 10)) [
  | inl one ↦
      let alone : 10 * 0 + n ≡ n = omega arith in
      rw (one, numeral) (step 0 n rest (ground arith) ∙ ap (λ m. read_digits m rest) alone)
  | inr more ↦
      let lower : n / 10 < 10 ^ fuel = omega arith in
      let together : 10 * (n / 10) + n % 10 ≡ n = omega arith in
      rw (more, numeral, append_assoc (numeral fuel (n / 10)) ((b'0' + n % 10) ∷ []) rest)
        (read_digits-numeral fuel (n / 10) ((b'0' + n % 10) ∷ rest) lower
          ∙ step (n / 10) (n % 10) rest (omega arith)
          ∙ ap (λ m. read_digits m rest) together)
]

numeral-digit : (fuel n : ℕ) (rest : Text) → starts_with_digit (numeral (suc fuel) n ++ rest) ≡ true
unfolding numeral
numeral-digit zero n rest = elim (Bool-cases (ltb n 10)) [
  | inl one ↦ rw (one, numeral) (ground arith)
  | inr more ↦ rw (more, numeral) (ground arith)
]
numeral-digit (suc fuel) n rest = elim (Bool-cases (ltb n 10)) [
  | inl one ↦ rw (one, numeral) (ground arith)
  | inr more ↦
      rw (more, numeral, append_assoc (numeral (suc fuel) (n / 10)) ((b'0' + n % 10) ∷ []) rest)
        (numeral-digit fuel (n / 10) ((b'0' + n % 10) ∷ rest))
]

pub strtoull-digit : (s : Text) → starts_with_digit s ≡ true → strtoull s ≡ number false s
unfolding strtoull skip_space
strtoull-digit [] h = cc
strtoull-digit (c ∷ s) h =
    let solid : is_space c ≡ false = ground arith in
    let no_minus : (c == b'-') ≡ false = ground arith in
    let no_plus : (c == b'+') ≡ false = ground arith in
    rw (solid, no_minus, no_plus, strtoull, skip_space) refl

pub strtoull-minus : (s : Text) → strtoull (b'-' ∷ s) ≡ number true s
unfolding strtoull skip_space
strtoull-minus s = refl

small_decimal : (n : ℕ) → n < 2 ^ 64 → n < 10 ^ 20
small_decimal n h = omega arith

pub decimal-digit : (n : ℕ) → starts_with_digit (decimal n) ≡ true
unfolding decimal
decimal-digit n = ap starts_with_digit (sym (append-nil (numeral 20 n))) ∙ numeral-digit 19 n []

read_digits-decimal : (n : ℕ) → n < 2 ^ 64 → read_digits 0 (decimal n) ≡ (n, [])
unfolding decimal read_digits
read_digits-decimal n h =
    let read = read_digits-numeral 20 n [] (small_decimal n h) in
    ap (λ s. read_digits 0 s) (sym (append-nil (numeral 20 n))) ∙ read

pub number-decimal :
    (negative : Bool) (n : ℕ)
    → n < 2 ^ 64
    → number negative (decimal n) ≡ record {
      value = if negative && ltb 0 n then 2 ^ 64 - n else n;
      rest = [];
      converted = true;
      in_range = true;
    }
unfolding number
number-decimal negative n h =
    let small : ltb n (2 ^ 64) ≡ true = ground arith in
    rw (read_digits-decimal n h, small, decimal-digit n) refl

-- The numeral of a number of 64 bits is read as that number, to its end.
pub strtoull-decimal :
    (n : ℕ)
    → n < 2 ^ 64
    → strtoull (decimal n) ≡ record { value = n; rest = []; converted = true; in_range = true }
strtoull-decimal n h = strtoull-digit (decimal n) (decimal-digit n) ∙ number-decimal false n h

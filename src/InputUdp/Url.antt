-- ===== src/InputUdp/Url.antt =====
-- src/input_udp.c: what `input_udp_parse_url` makes of a URL.
use two_stream_recovery.Base.Text.{
  IsNumeral, starts_with_digit, Text, codes, is_empty, without_prefix, split_last, before_it,
}
use two_stream_recovery.Base.{
  ◌⊎◌, true, ◌||◌, Option-cases, if◌then◌else◌, leb, ◌^◌, ◌≤◌, length, ◌∙◌, false, ap, sym, ◌==◌,
  Option, zero, suc, ◌%◌, ◌/◌, inr, inl, ltb, Bool-cases, [], ◌∷◌, ◌+◌, arith, ◌<◌, some, none, ℕ,
  ◌++◌, ◌≡◌, refl,
}
use mathlib.Core.Path.{subst}
use two_stream_recovery.Base.Text.Decimal.{decimal-digit, decimal, numeral, strtoull-decimal}
use two_stream_recovery.InputUdp.{parse_url, address_of, with_port}

split_last-append :
    (c : ℕ) (xs ys : Text) → split_last c ys ≡ none → split_last c (xs ++ (c ∷ ys)) ≡ some (xs, ys)
unfolding split_last
split_last-append c [] ys h = ground arith
split_last-append c (x ∷ xs) ys h = rw (split_last-append c xs ys h) refl

before_it-none :
    (x c : ℕ) (r : Option (Text × Text)) (s : Text)
    → before_it x r c s ≡ none
    → (r ≡ none) × ((x == c) ≡ false)
before_it-none x c none s h = ground arith
before_it-none x c (some (b, a)) s h = cc

before_it_sound :
    (x c : ℕ) (r : Option (Text × Text)) (s xs ys : Text)
    → ((b a : Text) → r ≡ some (b, a) → s ≡ b ++ (c ∷ a))
    → before_it x r c s ≡ some (xs, ys)
    → x ∷ s ≡ xs ++ (c ∷ ys)
before_it_sound x c none s xs ys k h = elim (Bool-cases (x == c)) [
  | inl here ↦
      let found = rw here at h in
      let e1 : [] ≡ xs = cc found in
      let e2 : s ≡ ys = cc found in
      let e3 : x ≡ c = ground arith in
      ap (λ t. x ∷ t) e2 ∙ ap (λ z. z ∷ ys) e3 ∙ ap (λ t. t ++ (c ∷ ys)) e1
  | inr elsewhere ↦ cc (rw elsewhere at h)
]
before_it_sound x c (some (b, a)) s xs ys k h =
    let e1 : x ∷ b ≡ xs = cc in
    let e2 : a ≡ ys = cc in
    ap (λ t. x ∷ t) (k b a refl) ∙ ap (λ t. x ∷ (b ++ (c ∷ t))) e2 ∙ ap (λ t. t ++ (c ∷ ys)) e1

split_last-none :
    (c : ℕ) (xs ys : Text)
    → split_last c xs ≡ none
    → split_last c ys ≡ none
    → split_last c (xs ++ ys) ≡ none
unfolding split_last
split_last-none c [] ys h k = k
split_last-none c (x ∷ xs) ys h k =
    let (later, other) = before_it-none x c (split_last c xs) xs h in
    rw (split_last-none c xs ys later k, other) refl

-- The parts of a text that has such a byte.
split_last_sound : (c : ℕ) (s xs ys : Text) → split_last c s ≡ some (xs, ys) → s ≡ xs ++ (c ∷ ys)
unfolding split_last
split_last_sound c [] xs ys h = cc
split_last_sound c (x ∷ s) xs ys h =
    before_it_sound x c (split_last c s) s xs ys (λ b a e. split_last_sound c s b a e) h

no_colon-digit : (d : ℕ) → d < 10 → split_last b':' ((b'0' + d) ∷ []) ≡ none
unfolding split_last
no_colon-digit d h = ground arith

no_colon-numeral : (fuel n : ℕ) → split_last b':' (numeral fuel n) ≡ none
unfolding numeral split_last
no_colon-numeral zero n = refl
no_colon-numeral (suc fuel) n = elim (Bool-cases (ltb n 10)) [
  | inl one ↦ rw (one, numeral) (no_colon-digit n (ground arith))
  | inr more ↦
      rw (more, numeral)
        (split_last-none b':' (numeral fuel (n / 10)) ((b'0' + n % 10) ∷ [])
          (no_colon-numeral fuel (n / 10)) (no_colon-digit (n % 10) (omega arith)))
]

without_prefix_sound : (p s t : Text) → without_prefix p s ≡ some t → s ≡ p ++ t
unfolding without_prefix
without_prefix_sound [] s t h = ground arith
without_prefix_sound (c ∷ p) [] t h = cc
without_prefix_sound (c ∷ p) (d ∷ s) t h = elim (Bool-cases (c == d)) [
  | inl same ↦
      let here : c ≡ d = ground arith in
      ap (λ x. x ∷ s) (sym here) ∙ ap (λ r. c ∷ r) (without_prefix_sound p s t (rw same at h))
  | inr other ↦ cc (rw other at h)
]

with_port_sound :
    (host text host' : Text) (port : ℕ)
    → with_port host text ≡ some (host', port)
    → (host ≡ host') × (port ≤ 65535) × IsNumeral text port
unfolding with_port
with_port_sound host text host' port h = (
  ground arith,
  ground arith,
  record {
    converted = ground arith;
    in_range = ground arith;
    whole = ground arith;
    value = ground arith;
  },
)

checked_sound :
    (host_size : ℕ) (host' text host : Text) (port : ℕ)
    → (if is_empty host' || is_empty text
        then none
        else if leb host_size (length host')
        then none
        else with_port host' text)
      ≡ some (host, port)
    → (host' ≡ host)
      × (is_empty host ≡ false)
      × (length host < host_size)
      × (port ≤ 65535)
      × IsNumeral text port
checked_sound host_size host' text host port h =
    elim (Bool-cases (is_empty host' || is_empty text)) [
      | inl blank ↦ cc (rw blank at h)
      | inr filled ↦ elim (Bool-cases (leb host_size (length host'))) [
        | inl long ↦ cc (rw (filled, long) at h)
        | inr short ↦
            let h' = rw (filled, short) at h in
            let (same, bound, read) = with_port_sound host' text host port h' in
            let nonempty : is_empty host' ≡ false = ground arith in
            let fits : length host' < host_size = ground arith in
            (
              same,
              ap is_empty (sym same) ∙ nonempty,
              subst (λ t. length t < host_size) same fits,
              bound,
              read,
            )
      ]
    ]

address_of_sound : (url : Text) → (url ≡ address_of url) ⊎ (url ≡ codes "udp://" ++ address_of url)
unfolding address_of
address_of_sound url = elim (Option-cases (without_prefix (codes "udp://") url)) [
  | inl none_there ↦ rw (none_there, address_of) (inl refl)
  | inr (rest, there) ↦
      rw (there, address_of) (inr (without_prefix_sound (codes "udp://") url rest there))
]

-- What `input_udp_parse_url` accepts has a host that is not empty and fits into the buffer with the
-- zero behind it; the URL is the host, a colon and a text, with or without `udp://` in front, and
-- `strtoul` reads the whole of this text as the number that is the port, which is at most 65535.
pub parse_url_sound :
    (url : Text) (host_size : ℕ) (host : Text) (port : ℕ)
    → parse_url url host_size ≡ some (host, port)
    → (is_empty host ≡ false)
      × (length host < host_size)
      × (port ≤ 65535)
      × ((text : Text) × (address_of url ≡ host ++ (b':' ∷ text)) × IsNumeral text port)
      × ((url ≡ address_of url) ⊎ (url ≡ codes "udp://" ++ address_of url))
unfolding parse_url with_port
parse_url_sound url host_size host port h = elim (Option-cases (split_last b':' (address_of url))) [
  | inl no_colon ↦ cc (rw (no_colon, parse_url) at h)
  | inr ((host', text), found) ↦
      let (same, nonempty, fits, small, read) =
        checked_sound host_size host' text host port (rw (found, parse_url) at h) in
      (
        nonempty,
        fits,
        small,
        (
          text,
          split_last_sound b':' (address_of url) host' text found
              ∙ ap (λ t. t ++ (b':' ∷ text)) same,
          read,
        ),
        address_of_sound url,
      )
]

no_colon-decimal : (n : ℕ) → split_last b':' (decimal n) ≡ none
unfolding decimal
no_colon-decimal n = no_colon-numeral 20 n

filled-digit : (s : Text) → starts_with_digit s ≡ true → is_empty s ≡ false
filled-digit [] h = cc
filled-digit (c ∷ s) h = refl

decimal-filled : (n : ℕ) → is_empty (decimal n) ≡ false
decimal-filled n = filled-digit (decimal n) (decimal-digit n)

address_of-url : (rest : Text) → address_of (codes "udp://" ++ rest) ≡ rest
unfolding address_of without_prefix
address_of-url rest = refl

with_port-decimal :
    (host : Text) (port : ℕ) → port ≤ 65535 → with_port host (decimal port) ≡ some (host, port)
unfolding with_port
with_port-decimal host port small =
    let within : ltb 65535 port ≡ false = ground arith in
    let same : port % 2 ^ 16 ≡ port = omega arith in
    rw (strtoull-decimal port (omega arith), within, same, with_port) refl

-- A URL that is put together from a host that fits into the buffer and the numeral of a port is taken
-- apart into them.
pub parse_url-printed :
    (host : Text) (host_size port : ℕ)
    → is_empty host ≡ false
    → length host < host_size
    → port ≤ 65535
    → parse_url (codes "udp://" ++ (host ++ (b':' ∷ decimal port))) host_size ≡ some (host, port)
unfolding parse_url with_port address_of
parse_url-printed host host_size port nonempty fits small =
    let rest : Text = host ++ (b':' ∷ decimal port) in
    let parts = split_last-append b':' host (decimal port) (no_colon-decimal port) in
    let room : leb host_size (length host) ≡ false = ground arith in
    rw (address_of-url rest, parts, nonempty, decimal-filled port, room, parse_url)
      (with_port-decimal host port small)

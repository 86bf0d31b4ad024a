-- ===== src/InputUdp.antt =====
-- src/input_udp.c and src/input_udp.h: the URL of an input, its socket and its multicast group.
pub mod Url
pub mod Socket
use two_stream_recovery.Base.{
  length, ◌^◌, leb, ◌%◌, some, none, ltb, ◌||◌, not, if◌then◌else◌, ℕ, Option,
}
use two_stream_recovery.Base.Text.{
  Text, codes, is_empty, without_prefix, split_last, Number, strtoull,
}

-- `address`: the URL without its scheme.
unfoldable pub address_of : Text → Text
unfolding without_prefix
address_of url = elim (without_prefix (codes "udp://") url) [ none ↦ url | some address ↦ address ]

-- The port of `input_udp_parse_url`.
unfoldable pub with_port : Text → Text → Option (Text × ℕ)
unfolding strtoull
with_port host text =
    let parsed = strtoull text in
    if not parsed.in_range
      || not parsed.converted
      || not (is_empty parsed.rest)
      || ltb 65535 parsed.value
    then none
    else some (host, parsed.value % 2 ^ 16)

-- `input_udp_parse_url`; `none` is -1.
unfoldable pub parse_url : Text → ℕ → Option (Text × ℕ)
unfolding address_of with_port split_last
parse_url url host_size = elim (split_last b':' (address_of url)) [
  | none ↦ none
  | some (host, port) ↦
      if is_empty host || is_empty port
      then none
      else if leb host_size (length host)
      then none
      else with_port host port
]

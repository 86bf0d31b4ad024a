-- ===== src/InputUdp/Socket.antt =====
-- src/input_udp.c: the socket of an input, from `input_udp_open` to `input_udp_close`. What the
-- system answers is `System`; `Kernel` is what the calls change in it.
pub mod Leak
use two_stream_recovery.Base.{
  zero, ◌∷◌, true, ◌&&◌, not, suc, update, [], ◌||◌, if◌then◌else◌, leb, false, some, Bool, none, ℕ,
  Option,
}
use two_stream_recovery.Base.Text.{Text, codes, same, is_empty}
use two_stream_recovery.Engine.State.{Status, ok, error}
use two_stream_recovery.InputUdp.{parse_url}

-- The answers of the system to the calls of one `input_udp_open`: `inet_pton` gives an address in
-- host order, `socket` a descriptor, and the others say whether the call succeeds.
pub record System : Type 0 where
  pub inet_pton : Text → Option ℕ
  pub socket : Option ℕ
  pub sets_reuse_address : Bool
  pub sets_reuse_port : Bool
  pub binds : Bool
  pub adds_membership : Bool
  pub gets_flags : Bool
  pub sets_flags : Bool

-- Which descriptors are open, the address and port that each is bound to, and the group and the
-- interface that it has joined.
pub record Kernel : Type 0 where
  pub is_open : ℕ → Bool
  pub bound : ℕ → Option (ℕ × ℕ)
  pub membership : ℕ → Option (ℕ × ℕ)

-- `input_udp_t`; `none` is the descriptor -1.
pub record InputUdp : Type 0 where
  pub fd : Option ℕ
  pub joined_multicast : Bool
  pub multicast_request : ℕ × ℕ
  pub url : Text
  pub interface_address : Text

-- After `memset` and `input->fd = -1`.
abbrev pub closed : InputUdp
closed = record {
  fd = none;
  joined_multicast = false;
  multicast_request = (0, 0);
  url = [];
  interface_address = [];
}

-- `is_multicast_address`.
unfoldable pub is_multicast : ℕ → Bool
is_multicast address = leb 0xe0000000 address && leb address 0xefffffff

-- `input_udp_is_multicast_host`.
unfoldable pub is_multicast_host : System → Text → Bool
unfolding is_multicast
is_multicast_host system host = elim (system.inet_pton host) [
  | none ↦ false
  | some address ↦ is_multicast address
]

-- `strcmp(host, "0.0.0.0") == 0 || strcmp(host, "*") == 0`.
abbrev is_any : Text → Bool
is_any host = same host (codes "0.0.0.0") || same host (codes "*")

abbrev pub address_or_any : System → Text → Option ℕ
address_or_any system host = if is_any host then some 0 else system.inet_pton host

-- `parse_interface_address`; the outer `none` is -1.
unfoldable pub parse_interface : System → Option Text → Option ℕ
unfolding same
parse_interface system none = some 0
parse_interface system (some name) = if is_empty name then some 0 else address_or_any system name

-- The first `n` bytes, as `snprintf` keeps them.
abbrev first : ℕ → Text → Text
first zero s = []
first (suc n) [] = []
first (suc n) (c ∷ s) = c ∷ first n s

-- `input_udp_close`.
unfoldable pub close : InputUdp → Kernel → InputUdp × Kernel
close input k = elim input.fd [
  | none ↦ (input, k)
  | some fd ↦ (
    record input { fd = none; joined_multicast = false },
    record k {
      is_open = update k.is_open fd false;
      bound = update k.bound fd none;
      membership = update k.membership fd none;
    },
  )
]

abbrev pub failed : InputUdp → Kernel → Status × InputUdp × Kernel
failed input k = (error, (close input k).0, (close input k).1)

abbrev name_of : Option Text → Text
name_of none = []
name_of (some name) = first 63 name

-- The end of the function: the socket does not block, and the names are kept.
unfoldable pub set_up : System → Text → Option Text → InputUdp → Kernel → Status × InputUdp × Kernel
unfolding close
set_up system url interface input k =
    if not (system.gets_flags && system.sets_flags)
    then failed input k
    else (ok, record input { url = first 255 url; interface_address = name_of interface }, k)

-- The membership in the group.
unfoldable pub join :
    System → Text → Option Text → ℕ → ℕ → InputUdp → Kernel → Status × InputUdp × Kernel
unfolding close parse_interface set_up
join system url interface address fd input k = elim (parse_interface system interface) [
  | none ↦ failed input k
  | some on ↦
      if not system.adds_membership
      then failed (record input { multicast_request = (address, on) }) k
      else set_up system url interface
          (record input { multicast_request = (address, on); joined_multicast = true })
          (record k { membership = update k.membership fd (some (address, on)) })
]

-- The calls on the new socket.
unfoldable pub configure :
    System → Text → Option Text → Text → ℕ → ℕ → ℕ → InputUdp → Kernel → Status × InputUdp × Kernel
unfolding close join set_up is_multicast
configure system url interface host address port fd input k =
    let local : ℕ = if is_multicast address || is_any host then 0 else address in
    let k' = record k { bound = update k.bound fd (some (local, port)) } in
    if not system.sets_reuse_address || not system.sets_reuse_port || not system.binds
    then failed input k
    else if is_multicast address
    then join system url interface address fd input k'
    else set_up system url interface input k'

-- The part of the function from the call of `socket` on.
unfoldable pub open_socket :
    System → Text → Option Text → Text → ℕ → ℕ → Kernel → Status × InputUdp × Kernel
unfolding configure
open_socket system url interface host address port k = elim system.socket [
  | none ↦ (error, closed, k)
  | some fd ↦
      configure system url interface host address port fd (record closed { fd = some fd })
        (record k { is_open = update k.is_open fd true })
]

-- `input_udp_open_with_interface`.
unfoldable pub open_with_interface :
    System → Text → Option Text → Kernel → Status × InputUdp × Kernel
unfolding parse_url open_socket same
open_with_interface system url interface k = elim (parse_url url 128) [
  | none ↦ (error, closed, k)
  | some (host, port) ↦ elim (address_or_any system host) [
    | none ↦ (error, closed, k)
    | some address ↦ open_socket system url interface host address port k
  ]
]

-- What `recv` gives.
pub data Received : Type 0 where
  would_block broken : Received
  bytes : ℕ → Received

-- `input_udp_receive`; `none` is a negative result.
abbrev pub receive : Received → Option ℕ
receive would_block = some 0
receive broken = none
receive (bytes n) = some n

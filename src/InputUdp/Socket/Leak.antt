-- ===== src/InputUdp/Socket/Leak.antt =====
-- src/input_udp.c: an input that could not be opened leaves no socket behind.
use two_stream_recovery.Base.{
  arith, if◌then◌else◌, ◌||◌, ◌∙◌, ap, not, Option-cases, Bool, inl, true, inr, update, ◌&&◌, some,
  none, false, ◌≡◌, ℕ, Option, refl,
}
use two_stream_recovery.InputUdp.Socket.{
  address_or_any, System, Kernel, InputUdp, closed, is_multicast, close, failed, set_up, join,
  configure, open_socket, open_with_interface, parse_interface,
}
use two_stream_recovery.Base.Text.{Text}
use two_stream_recovery.Engine.State.{Status, ok, error}
use two_stream_recovery.InputUdp.{parse_url}

-- What a call leaves: on an error the descriptor is -1 and the same sockets are open as before; on
-- success the descriptor is of a new socket, and the others are as before.
unfoldable pub IsSettled : Kernel → Status × InputUdp × Kernel → Type 0
IsSettled k (error, input, k') = (input.fd ≡ none) × ((fd : ℕ) → k'.is_open fd ≡ k.is_open fd)
IsSettled k (ok, input, k') =
    (fd : ℕ) × (input.fd ≡ some fd)
    × (k.is_open fd ≡ false)
    × ((other : ℕ) → k'.is_open other ≡ update k.is_open fd true other)

-- The socket is the only one that is new.
record IsNew (k : Kernel) (fd : ℕ) (input : InputUdp) (k' : Kernel) : Type 0 where
  free : k.is_open fd ≡ false
  held : input.fd ≡ some fd
  opened : k'.is_open ≡ update k.is_open fd true

closed_again :
    (k k' : Kernel) (fd : ℕ)
    → k.is_open fd ≡ false
    → k'.is_open ≡ update k.is_open fd true
    → (other : ℕ) → update k'.is_open fd false other ≡ k.is_open other
closed_again k k' fd free opened other =
    ap (λ f. update f fd false other) opened ∙ ground (arith, free)

failed-IsSettled :
    (k k' : Kernel) (fd : ℕ) (input : InputUdp)
    → IsNew k fd input k'
    → IsSettled k (failed input k')
unfolding close IsSettled
failed-IsSettled k k' fd input h =
    rw (h.held, close) (refl, λ other. closed_again k k' fd h.free h.opened other)

success-IsSettled :
    (k k' : Kernel) (fd : ℕ) (input input' : InputUdp)
    → IsNew k fd input k'
    → input'.fd ≡ input.fd
    → IsSettled k (ok, input', k')
unfolding IsSettled
success-IsSettled k k' fd input input' h e =
    (fd, e ∙ h.held, h.free, λ other. ap (λ f. f other) h.opened)

if-IsSettled :
    (k : Kernel) (b : Bool) (p q : Status × InputUdp × Kernel)
    → IsSettled k p
    → IsSettled k q
    → IsSettled k (if b then p else q)
if-IsSettled k true p q h g = h
if-IsSettled k false p q h g = g

set_up-IsSettled :
    (system : System) (url : Text) (interface : Option Text) (k k' : Kernel) (fd : ℕ)
    (input : InputUdp)
    → IsNew k fd input k'
    → IsSettled k (set_up system url interface input k')
unfolding set_up
set_up-IsSettled system url interface k k' fd input h =
    if-IsSettled k (not (system.gets_flags && system.sets_flags)) _ _
      (failed-IsSettled k k' fd input h) (success-IsSettled k k' fd input _ h refl)

join-IsSettled :
    (system : System) (url : Text) (interface : Option Text) (address : ℕ) (k k' : Kernel) (fd : ℕ)
    (input : InputUdp)
    → IsNew k fd input k'
    → IsSettled k (join system url interface address fd input k')
unfolding join
join-IsSettled system url interface address k k' fd input h =
    elim (Option-cases (parse_interface system interface)) [
      | inl wrong ↦ rw (wrong, join) (failed-IsSettled k k' fd input h)
      | inr (on, known) ↦
          rw (known, join)
            (if-IsSettled k (not system.adds_membership) _ _
              (failed-IsSettled k k' fd _
                (record { free = h.free; held = h.held; opened = h.opened }))
              (set_up-IsSettled system url interface k _ fd _
                (record { free = h.free; held = h.held; opened = h.opened })))
    ]

configure-IsSettled :
    (system : System) (url : Text) (interface : Option Text) (host : Text) (address port fd : ℕ)
    (k k' : Kernel) (input : InputUdp)
    → IsNew k fd input k'
    → IsSettled k (configure system url interface host address port fd input k')
unfolding configure
configure-IsSettled system url interface host address port fd k k' input h =
    if-IsSettled k (not system.sets_reuse_address || not system.sets_reuse_port || not system.binds)
      _ _ (failed-IsSettled k k' fd input h)
      (if-IsSettled k (is_multicast address) _ _
        (join-IsSettled system url interface address k _ fd input
          (record { free = h.free; held = h.held; opened = h.opened }))
        (set_up-IsSettled system url interface k _ fd input
          (record { free = h.free; held = h.held; opened = h.opened })))

-- A socket that the system hands out is not one that is open already.
abbrev IsFresh : System → Kernel → Type 0
IsFresh system k = (fd : ℕ) → system.socket ≡ some fd → k.is_open fd ≡ false

untouched-IsSettled : (k : Kernel) → IsSettled k (error, closed, k)
unfolding IsSettled
untouched-IsSettled k = (refl, λ fd. refl)

open_socket-IsSettled :
    (system : System) (url : Text) (interface : Option Text) (host : Text) (address port : ℕ)
    (k : Kernel)
    → IsFresh system k
    → IsSettled k (open_socket system url interface host address port k)
unfolding open_socket
open_socket-IsSettled system url interface host address port k fresh =
    elim (Option-cases system.socket) [
      | inl refused ↦ rw (refused, open_socket) (untouched-IsSettled k)
      | inr (fd, given) ↦
          rw (given, open_socket)
            (configure-IsSettled system url interface host address port fd k _ _
              (record { free = fresh fd given; held = refl; opened = refl }))
    ]

-- `input_udp_open_with_interface` leaves no socket behind when it fails, at whichever call that is:
-- the descriptor is -1 and the same sockets are open as before. When it succeeds, the descriptor is
-- of a socket that was not open before and is now, and the other descriptors are as before. The system is taken to hand out only
-- descriptors that are not open.
pub open_with_interface-IsSettled :
    (system : System) (url : Text) (interface : Option Text) (k : Kernel)
    → ((fd : ℕ) → system.socket ≡ some fd → k.is_open fd ≡ false)
    → IsSettled k (open_with_interface system url interface k)
unfolding open_with_interface
open_with_interface-IsSettled system url interface k fresh =
    elim (Option-cases (parse_url url 128)) [
      | inl wrong ↦ rw (wrong, open_with_interface) (untouched-IsSettled k)
      | inr ((host, port), taken) ↦ elim (Option-cases (address_or_any system host)) [
        | inl wrong ↦ rw (taken, wrong, open_with_interface) (untouched-IsSettled k)
        | inr (address, known) ↦
            rw (taken, known, open_with_interface)
              (open_socket-IsSettled system url interface host address port k fresh)
      ]
    ]

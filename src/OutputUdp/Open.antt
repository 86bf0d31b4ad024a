-- ===== src/OutputUdp/Open.antt =====
-- src/output_udp.c, `output_udp_open` and `output_udp_close`: the socket of the output. What the
-- system answers is `System`.
use two_stream_recovery.Base.{
  Option-cases, arith, inl, length, inr, true, leb, update, ◌||◌, none, false, some, ℕ, ◌≡◌, Bool,
  if◌then◌else◌, Option, refl,
}
use two_stream_recovery.Base.Text.{Text, is_empty, split_last}
use two_stream_recovery.Engine.State.{Status, ok, error}
use two_stream_recovery.InputUdp.{address_of, with_port}

-- The block of memory that `calloc` gives, the descriptor that `socket` gives, and the address in host
-- order that `inet_pton` gives.
pub record System : Type 0 where
  pub calloc : Option ℕ
  pub socket : Option ℕ
  pub inet_pton : Text → Option ℕ

-- The block that `addr_storage` points to, and the address and the port in it.
pub record Storage : Type 0 where
  pub block : ℕ
  pub address : ℕ
  pub port : ℕ

-- The part of `output_udp_t` that these two functions keep: the descriptor (`none` is -1) and
-- `addr_storage` (`none` is NULL).
pub record Endpoint : Type 0 where
  pub fd : Option ℕ
  pub addr_storage : Option Storage

-- `output_udp_parse_url`, written like `input_udp_parse_url`.
unfoldable pub parse_url : Text → ℕ → Option (Text × ℕ)
unfolding address_of with_port split_last
parse_url url host_size = elim (split_last b':' (address_of url)) [
  | none ↦ none
  | some (host, port) ↦
      if is_empty host || is_empty port
      then none
      else if leb host_size (length host)
      then none
      else with_port host port
]

-- What the process holds: the descriptors that are open, and the blocks that are allocated.
pub record Process : Type 0 where
  pub is_open : ℕ → Bool
  pub is_allocated : ℕ → Bool

-- `close(output->fd)` unless the descriptor is -1, and `free(output->addr_storage)`, which does nothing
-- on NULL.
abbrev pub close_fd : Option ℕ → Process → Process
close_fd none p = p
close_fd (some fd) p = record p { is_open = update p.is_open fd false }

abbrev pub free : Option Storage → Process → Process
free none p = p
free (some storage) p = record p { is_allocated = update p.is_allocated storage.block false }

-- `output_udp_close`.
unfoldable pub close : Endpoint → Process → Endpoint × Process
close output p =
    (record { fd = none; addr_storage = none }, free output.addr_storage (close_fd output.fd p))

abbrev failed : Endpoint → Process → Status × Endpoint × Process
failed output p = (error, (close output p).0, (close output p).1)

abbrev addressed : Option ℕ → ℕ → ℕ → ℕ → Process → Status × Endpoint × Process
addressed none block fd port p =
    failed
      (record {
        fd = some fd;
        addr_storage = some (record { block = block; address = 0; port = port });
      })
      p
addressed (some address) block fd port p = (
  ok,
  record {
    fd = some fd;
    addr_storage = some (record { block = block; address = address; port = port });
  },
  p,
)

-- What `output_udp_open` has before it calls `socket`: zeroed memory and no descriptor.
abbrev pub prepared : ℕ → Endpoint
prepared block = record {
  fd = none;
  addr_storage = some (record { block = block; address = 0; port = 0 });
}

-- From the call of `socket` on.
unfoldable pub open_socket : System → Text → ℕ → ℕ → Process → Status × Endpoint × Process
unfolding close
open_socket system host port block p = elim system.socket [
  | none ↦ failed (prepared block) p
  | some fd ↦
      addressed (system.inet_pton host) block fd port
        (record p { is_open = update p.is_open fd true })
]

-- From the check of the memory on.
unfoldable pub open_block : System → Text → ℕ → Process → Status × Endpoint × Process
unfolding close parse_url open_socket
open_block system url block p = elim (parse_url url 128) [
  | none ↦ failed (prepared block) p
  | some (host, port) ↦ open_socket system host port block p
]

-- `output_udp_open`.
unfoldable pub open_url : System → Text → Process → Status × Endpoint × Process
unfolding open_block
open_url system url p = elim system.calloc [
  | none ↦ (error, record { fd = none; addr_storage = none }, p)
  | some block ↦
      open_block system url block (record p { is_allocated = update p.is_allocated block true })
]

-- What a call leaves: on an error the descriptor is -1, the pointer is NULL, and the same sockets are
-- open and the same blocks allocated as before; on success there is one new socket and one new block,
-- which the output holds, and the others are as before.
abbrev pub IsSettled : Process → Status × Endpoint × Process → Type 0
IsSettled before (error, output, after) =
    (output.fd ≡ none)
    × (output.addr_storage ≡ none)
    × ((fd : ℕ) → after.is_open fd ≡ before.is_open fd)
    × ((block : ℕ) → after.is_allocated block ≡ before.is_allocated block)
IsSettled before (ok, output, after) =
    ((fd : ℕ) × (output.fd ≡ some fd)
      × (before.is_open fd ≡ false)
      × ((other : ℕ) → after.is_open other ≡ update before.is_open fd true other))
    × ((storage : Storage) × (output.addr_storage ≡ some storage)
        × (before.is_allocated storage.block ≡ false)
        × ((other : ℕ)
            → after.is_allocated other ≡ update before.is_allocated storage.block true other))

taken_again :
    (held : ℕ → Bool) (n : ℕ)
    → held n ≡ false
    → (other : ℕ) → update (update held n true) n false other ≡ held other
taken_again held n free other = ground (arith, free)

addressed-IsSettled :
    (address : Option ℕ) (block fd port : ℕ) (p : Process)
    → p.is_open fd ≡ false
    → p.is_allocated block ≡ false
    → IsSettled p (
        addressed address block fd port (record {
          is_open = update p.is_open fd true;
          is_allocated = update p.is_allocated block true;
        }))
unfolding close
addressed-IsSettled none block fd port p unopened unused = (
  refl,
  refl,
  λ other. taken_again p.is_open fd unopened other,
  λ other. taken_again p.is_allocated block unused other,
)
addressed-IsSettled (some address) block fd port p unopened unused =
    ((fd, refl, unopened, λ other. refl), (_, refl, unused, λ other. refl))

prepared-IsSettled :
    (block : ℕ) (p : Process)
    → p.is_allocated block ≡ false
    → IsSettled p
        (failed (prepared block) (record p { is_allocated = update p.is_allocated block true }))
unfolding close
prepared-IsSettled block p unused =
    (refl, refl, λ other. refl, λ other. taken_again p.is_allocated block unused other)

-- `output_udp_open` leaves neither a socket nor memory behind when it fails, at whichever call that
-- is. When it succeeds, the descriptor is of a socket that was not open before and is now, the address
-- stands in a block that was not allocated before and is now, and every other descriptor and block is
-- as before. The system is taken to hand out only descriptors that are not open and blocks that are
-- not allocated.
pub open_url-IsSettled :
    (system : System) (url : Text) (p : Process)
    → ((fd : ℕ) → system.socket ≡ some fd → p.is_open fd ≡ false)
    → ((block : ℕ) → system.calloc ≡ some block → p.is_allocated block ≡ false)
    → IsSettled p (open_url system url p)
unfolding open_url open_block open_socket
open_url-IsSettled system url p unopened unused = elim (Option-cases system.calloc) [
  | inl no_memory ↦ rw no_memory ((refl, refl, λ other. refl, λ other. refl))
  | inr (block, memory) ↦ elim (Option-cases (parse_url url 128)) [
    | inl wrong ↦ rw (memory, wrong) (prepared-IsSettled block p (unused block memory))
    | inr ((host, port), taken) ↦ elim (Option-cases system.socket) [
      | inl refused ↦ rw (memory, taken, refused) (prepared-IsSettled block p (unused block memory))
      | inr (fd, given) ↦
          rw (memory, taken, given)
            (addressed-IsSettled (system.inet_pton host) block fd port p (unopened fd given)
              (unused block memory))
    ]
  ]
]

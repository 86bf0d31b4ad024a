-- ===== src/RunLoop/Program/Closed.antt =====
-- src/main.c, `main`: the sockets that it opens are closed when it returns.
use two_stream_recovery.Base.{
  none, ap, Option, refl, ◌∙◌, arith, true, update, false, ◌≡◌, some, Bool, ℕ, List,
}
use two_stream_recovery.RunLoop.Program.{
  served, Exit, success, failure, url_of, close_inputs, with_output, with_second, with_first,
  Machine, primary_opened, secondary_opened, main,
}
use two_stream_recovery.InputUdp.Socket.Leak.{open_with_interface-IsSettled}
use two_stream_recovery.Base.Text.{Text}
use two_stream_recovery.Ts.{TsPacketInfo}
use two_stream_recovery.Stats.Double.{Double}
use two_stream_recovery.Engine.State.{Status, ok, error}
use two_stream_recovery.CommandLine.{Options, parsed, help_wanted, invalid, parse}
use two_stream_recovery.InputUdp.Socket.{Kernel, InputUdp, open_with_interface}
use two_stream_recovery.OutputUdp.Open.{
  Endpoint, Process, Storage, close_fd, free, open_url, open_url-IsSettled,
}
use two_stream_recovery.InputUdp.Socket
use two_stream_recovery.OutputUdp.Open
use two_stream_recovery.InputUdp.Socket.Leak

close_opened :
    (input : InputUdp) (before : ℕ → Bool) (k : Kernel) (fd : ℕ)
    → input.fd ≡ some fd
    → before fd ≡ false
    → ((other : ℕ) → k.is_open other ≡ update before fd true other)
    → (other : ℕ) → (Socket.close input k).1.is_open other ≡ before other
unfolding Socket.close
close_opened input before k fd held free opened other =
    rw (held, Socket.close) (ground (arith, free, opened other))

free-is_open : (storage : Option Storage) (p : Process) → (free storage p).is_open ≡ p.is_open
free-is_open none p = refl
free-is_open (some storage) p = refl

close_opened_output :
    (output : Endpoint) (before : ℕ → Bool) (p : Process) (fd : ℕ)
    → output.fd ≡ some fd
    → before fd ≡ false
    → ((other : ℕ) → p.is_open other ≡ update before fd true other)
    → (other : ℕ) → (Open.close output p).1.is_open other ≡ before other
unfolding Open.close
close_opened_output output before p fd held unopened opened other =
    ap (λ f. f other) (free-is_open output.addr_storage (close_fd output.fd p))
    ∙ rw held (ground (arith, unopened, opened other))

-- An input that was opened, by what its opening changed.
record IsOpened (before : ℕ → Bool) (input : InputUdp) (k : Kernel) : Type 0 where
  fd : ℕ
  held : input.fd ≡ some fd
  free : before fd ≡ false
  opened : (other : ℕ) → k.is_open other ≡ update before fd true other

settled-IsOpened :
    (k : Kernel) (input : InputUdp) (k' : Kernel)
    → Leak.IsSettled k (ok, input, k')
    → IsOpened k.is_open input k'
unfolding Leak.IsSettled
settled-IsOpened k input k' (fd, held, free, opened) = record {
  fd = fd;
  held = held;
  free = free;
  opened = opened;
}

-- Closing it again, in a state in which the same sockets are open.
closed_by :
    (before : ℕ → Bool) (input : InputUdp) (k k' : Kernel)
    → IsOpened before input k
    → ((other : ℕ) → k'.is_open other ≡ k.is_open other)
    → (other : ℕ) → (Socket.close input k').1.is_open other ≡ before other
closed_by before input k k' h same other =
    close_opened input before k' h.fd h.held h.free (λ x. same x ∙ h.opened x) other

inputs_closed :
    (before : ℕ → Bool) (first second : InputUdp) (k1 k2 k : Kernel)
    → IsOpened before first k1
    → IsOpened k1.is_open second k2
    → ((other : ℕ) → k.is_open other ≡ k2.is_open other)
    → (other : ℕ) → (close_inputs first second k).is_open other ≡ before other
inputs_closed before first second k1 k2 k h g same other =
    closed_by before first k1 (Socket.close second k).1 h
      (λ x. closed_by k1.is_open second k2 k g same x) other

with_output_closed :
    (before heap : ℕ → Bool) (first second : InputUdp) (result : Status) (k1 k2 : Kernel)
    (p : Status × Endpoint × Process)
    → IsOpened before first k1
    → IsOpened k1.is_open second k2
    → Open.IsSettled (record { is_open = k2.is_open; is_allocated = heap }) p
    → (other : ℕ) → (with_output first second result k2 p).1.is_open other ≡ before other
with_output_closed before heap first second result k1 k2 (error, output, p) h g settled other =
    inputs_closed before first second k1 k2 (record k2 { is_open = p.is_open }) h g settled.2 other
with_output_closed before heap first second result k1 k2 (ok, output, p) h g settled other =
    let ((fd, held, free, opened), _) = settled in
    inputs_closed before first second k1 k2
      (record k2 { is_open = (Open.close output p).1.is_open }) h g
      (λ x. close_opened_output output k2.is_open p fd held free opened x) other

refused_same :
    (k : Kernel) (input : InputUdp) (k' : Kernel)
    → Leak.IsSettled k (error, input, k')
    → (fd : ℕ) → k'.is_open fd ≡ k.is_open fd
unfolding Leak.IsSettled
refused_same k input k' settled fd = settled.1 fd

with_second_closed :
    (system : Open.System) (heap : ℕ → Bool) (o : Options) (before : ℕ → Bool) (first : InputUdp)
    (result : Status) (k1 : Kernel) (p : Status × InputUdp × Kernel)
    → IsOpened before first k1
    → Leak.IsSettled k1 p
    → ((fd : ℕ) → system.socket ≡ some fd → p.2.is_open fd ≡ false)
    → ((block : ℕ) → system.calloc ≡ some block → heap block ≡ false)
    → (other : ℕ) → (with_second system heap o first result p).1.is_open other ≡ before other
with_second_closed system heap o before first result k1 (error, second, k2) h settled fresh unused
      other =
    closed_by before first k1 k2 h (refused_same k1 second k2 settled) other
with_second_closed system heap o before first result k1 (ok, second, k2) h settled fresh unused
      other =
    let p : Process = record { is_open = k2.is_open; is_allocated = heap } in
    with_output_closed before heap first second result k1 k2 (open_url system o.output_url p) h
      (settled-IsOpened k1 second k2 settled)
      (open_url-IsSettled system o.output_url p fresh unused) other

with_first_closed :
    (second_system : Socket.System) (system : Open.System) (heap : ℕ → Bool) (o : Options)
    (result : Status) (k : Kernel) (p : Status × InputUdp × Kernel)
    → Leak.IsSettled k p
    → ((fd : ℕ) → second_system.socket ≡ some fd → p.2.is_open fd ≡ false)
    → ((fd : ℕ)
        → system.socket ≡ some fd
        → (secondary_opened second_system o p.2).2.is_open fd ≡ false)
    → ((block : ℕ) → system.calloc ≡ some block → heap block ≡ false)
    → (other : ℕ)
    → (with_first second_system system heap o result p).1.is_open other ≡ k.is_open other
with_first_closed second_system system heap o result k (error, first, k1) settled fresh2 fresh3
      unused other =
    refused_same k first k1 settled other
with_first_closed second_system system heap o result k (ok, first, k1) settled fresh2 fresh3 unused
      other =
    with_second_closed system heap o k.is_open first result k1 (secondary_opened second_system o k1)
      (settled-IsOpened k first k1 settled)
      (open_with_interface-IsSettled second_system (url_of o.input_secondary_url)
        o.input_secondary_interface k1 fresh2)
      fresh3 unused other

module _ {D : Type 0} (F : Double D) (blank : TsPacketInfo) where
  -- When `main` returns, the sockets of the two inputs and of the output are closed again: whatever
  -- the arguments, whichever of the calls that open a socket fails, and however the loop ends, the
  -- same descriptors are open as before, those of the web server left aside. The system is taken to
  -- hand out only descriptors that are not open at the time, and a block that is not allocated.
  pub main-closes :
      (machine : Machine D) (args : List Text)
      → ((fd : ℕ) → machine.primary.socket ≡ some fd → machine.kernel.is_open fd ≡ false)
      → ((fd : ℕ)
          → machine.secondary.socket ≡ some fd
          → (primary_opened machine (parse args).1).2.is_open fd ≡ false)
      → ((fd : ℕ)
          → machine.output.socket ≡ some fd
          → (secondary_opened machine.secondary
                (parse args).1
                (primary_opened machine (parse args).1).2).2.is_open
              fd
            ≡ false)
      → ((block : ℕ) → machine.output.calloc ≡ some block → machine.heap block ≡ false)
      → (fd : ℕ) → (main F blank machine args).1.is_open fd ≡ machine.kernel.is_open fd
  unfolding main
  main-closes machine args fresh1 fresh2 fresh3 unused fd =
      let o = (parse args).1 in
      let ran = served F blank machine o in
      elim (parse args).0
        as (λ r.
          (elim r as (λ x. Exit × Kernel) [
            | help_wanted ↦ (success, machine.kernel)
            | invalid ↦ (failure, machine.kernel)
            | parsed ↦
                with_first machine.secondary machine.output machine.heap o ran
                  (primary_opened machine o)
          ]).1.is_open
            fd
          ≡ machine.kernel.is_open fd) [
            | help_wanted ↦ refl
            | invalid ↦ refl
            | parsed ↦
                with_first_closed machine.secondary machine.output machine.heap o ran machine.kernel
                  (primary_opened machine o)
                  (open_with_interface-IsSettled machine.primary (url_of o.input_primary_url)
                    o.input_primary_interface machine.kernel fresh1)
                  fresh2 fresh3 unused fd
          ]

-- ===== src/RunLoop/Program.antt =====
-- src/main.c, `main`: the options, the three sockets, the loop, and the closing of the sockets.
pub mod Closed
use two_stream_recovery.Base.{
  ◌||◌, ◌==◌, if◌then◌else◌, ◌∙◌, arith, true, update, false, none, ◌≡◌, some, Bool, Option, ℕ, [],
  List,
}
use two_stream_recovery.InputUdp.Socket.Leak.{open_with_interface-IsSettled}
use two_stream_recovery.Base.Text.{Text}
use two_stream_recovery.Ts.{TsPacketInfo}
use two_stream_recovery.Stats.{Stats}
use two_stream_recovery.Stats.Double.{Double}
use two_stream_recovery.Engine.State.{Engine, Env, Status, ok, error}
use two_stream_recovery.CommandLine.{Options, parsed, help_wanted, invalid, parse}
use two_stream_recovery.InputUdp.Socket.{Kernel, InputUdp, open_with_interface}
use two_stream_recovery.OutputUdp.Open.{Endpoint, Process, open_url, open_url-IsSettled}
use two_stream_recovery.RunLoop.{Selected, run}
use two_stream_recovery.InputUdp.Socket
use two_stream_recovery.OutputUdp.Open

-- EXIT_SUCCESS and EXIT_FAILURE.
pub data Exit : Type 0 where
  success failure : Exit

abbrev pub exit_of : Status → Exit
exit_of ok = success
exit_of error = failure

-- A URL that `command_line_parse` has required.
abbrev pub url_of : Option Text → Text
url_of none = []
url_of (some url) = url

-- The closing of the sockets, the last that was opened first.
abbrev pub close_inputs : InputUdp → InputUdp → Kernel → Kernel
close_inputs first second k = (Socket.close first (Socket.close second k).1).1

abbrev pub with_output :
    InputUdp → InputUdp → Status → Kernel → Status × Endpoint × Process → Exit × Kernel
with_output first second result k (error, output, p) =
    (failure, close_inputs first second (record k { is_open = p.is_open }))
with_output first second result k (ok, output, p) = (
  exit_of result,
  close_inputs first second (record k { is_open = (Open.close output p).1.is_open }),
)

-- `heap` says which blocks are allocated.
abbrev pub with_second :
    Open.System
    → (ℕ → Bool)
    → Options
    → InputUdp
    → Status
    → Status × InputUdp × Kernel
    → Exit × Kernel
with_second system heap o first result (error, second, k) = (failure, (Socket.close first k).1)
with_second system heap o first result (ok, second, k) =
    with_output first second result k
      (open_url system o.output_url (record { is_open = k.is_open; is_allocated = heap }))

abbrev pub with_first :
    Socket.System
    → Open.System
    → (ℕ → Bool)
    → Options
    → Status
    → Status × InputUdp × Kernel
    → Exit × Kernel
with_first second_system system heap o result (error, first, k) = (failure, k)
with_first second_system system heap o result (ok, first, k) =
    with_second system heap o first result (
      open_with_interface second_system (url_of o.input_secondary_url) o.input_secondary_interface
        k)

-- What the program finds: the answers of the system for the three sockets, whether the web server
-- can be opened, and the answers for the loop.
pub record Machine (D : Type 0) : Type 0 where
  pub primary : Socket.System
  pub secondary : Socket.System
  pub output : Open.System
  pub kernel : Kernel
  pub heap : ℕ → Bool
  pub env : Env
  pub web_opens : Bool
  pub stats : Stats D
  pub rounds : List Selected
  pub flush_sink : Engine D → Status

abbrev pub primary_opened : {D : Type 0} → Machine D → Options → Status × InputUdp × Kernel
primary_opened machine o =
    open_with_interface machine.primary (url_of o.input_primary_url) o.input_primary_interface
      machine.kernel

-- The second opening, in the state that the first left.
abbrev pub secondary_opened : Socket.System → Options → Kernel → Status × InputUdp × Kernel
secondary_opened system o k =
    open_with_interface system (url_of o.input_secondary_url) o.input_secondary_interface k

module _ {D : Type 0} (F : Double D) (blank : TsPacketInfo) where
  -- `run_loop`, which fails at once where the web server is asked for and does not open.
  abbrev pub served : Machine D → Options → Status
  served machine o =
      if (o.http_port == 0) || machine.web_opens
      then (run F blank machine.flush_sink machine.env machine.stats o.recovery_config
          machine.rounds).0
      else error

  -- `main`.
  unfoldable pub main : Machine D → List Text → Exit × Kernel
  unfolding parse
  main machine args =
      let (result, o) = parse args in
      elim result [
        | help_wanted ↦ (success, machine.kernel)
        | invalid ↦ (failure, machine.kernel)
        | parsed ↦
            with_first machine.secondary machine.output machine.heap o (served machine o)
              (primary_opened machine o)
      ]

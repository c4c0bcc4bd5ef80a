-- ===== src/Modbus/Poller.antt =====
-- internal/modbus/poller.go: the life of a poller, and one round of polling. The goroutine of
-- `pollLoop` is a number of live loops; `Stop` waits until they have seen the closed channel.
pub mod Life
pub mod Round
use open_machine_core.Prelude.{
  ℕ, suc, ◌+◌, String, List, [], ◌∷◌, Bool, true, false, not, if◌then◌else◌,
}
use open_machine_core.Prelude.Outcome.{Outcome, ok, err, panic}
use open_machine_core.Types.{Float64, AccessType, RegisterDefinition}
use open_machine_core.Modbus.Client.{Peer}
use open_machine_core.Modbus.Device.{Device, DeviceError, Value, read_register}

pub record Poller : Type 0 where
  pub running : Bool
  pub stop_closed : Bool  -- whether stopChan is closed
  pub loops : ℕ  -- pollLoop goroutines, the counter of `wg`

unfoldable pub new_poller : Poller
new_poller = record { running = false; stop_closed = false; loops = 0 }

unfoldable pub start : Poller → Poller
start p = if p.running then p else record p { running = true; loops = p.loops + 1 }

-- Closing a closed channel panics. After `wg.Wait` no loop is left.
abbrev closing : Bool → Poller → Outcome (Unit {0}) Poller
closing true p = panic
closing false p = ok (record p { stop_closed = true; loops = 0; running = false })

unfoldable pub stop : Poller → Outcome (Unit {0}) Poller
stop p = if not p.running then ok p else closing p.stop_closed p

unfoldable pub is_running : Poller → Bool
is_running p = p.running

module _ (fl : Float64) where
  open fl use {F}

  abbrev pub is_polled : AccessType → Bool
  is_polled AccessType.read_only = true
  is_polled AccessType.read_write = true
  is_polled (AccessType.other _) = false

  -- An error is logged and the round goes on; a panic ends the program.
  abbrev go_on :
      Device F × Outcome DeviceError (Value F)
      → (Device F → Outcome DeviceError (Device F))
      → Outcome DeviceError (Device F)
  go_on (d, ok _) next = next d
  go_on (d, err _) next = next d
  go_on (d, panic) next = panic

  -- `peer_at i` is the peer during the reading of register i of the profile.
  unfoldable pub poll_registers :
      (ℕ → Peer) → ℕ → List (RegisterDefinition F) → Device F → Outcome DeviceError (Device F)
  poll_registers peer_at i [] d = ok d
  poll_registers peer_at i (reg ∷ regs) d =
      let rest = λ (d' : Device F). poll_registers peer_at (suc i) regs d' in
      if is_polled reg.access then go_on (read_register fl (peer_at i) reg.name d) rest else rest d

  unfoldable pub poll_device : (ℕ → Peer) → Device F → Outcome DeviceError (Device F)
  unfolding poll_registers
  poll_device peer_at d = poll_registers peer_at 0 d.profile.registers d

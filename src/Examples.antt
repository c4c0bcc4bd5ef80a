-- ===== src/Examples.antt =====
-- Concrete inputs for the theorems: values with which their hypotheses hold. Natural numbers stand
-- for float64 here.
pub mod Modbus
mod Machine
mod Workflow
mod Engine
mod Devices
mod Manager
mod Auth
mod System
mod Websocket
mod Rest
mod Stored
use open_machine_core.Prelude.{ℕ, ◌*◌, ◌/◌, ◌==◌, ltb, uint16}
use open_machine_core.Prelude.Int.{pos, pos_part}
use open_machine_core.Types.{Float64}

abbrev pub whole : Float64
whole = record {
  F = ℕ;
  one = 1;
  of_int = λ n. pos_part n;
  mul = λ a b. a * b;
  div = λ a b. a / b;
  is_zero = λ a. a == 0;
  is_positive = λ a. ltb 0 a;
  to_uint16 = λ a. uint16 a;
}

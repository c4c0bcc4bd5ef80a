-- ===== src/System/Status.antt =====
-- lifecycle.go: the status of the system as the REST API shows it.
use open_machine_core.Prelude.{
  ℕ, suc, String, List, [], ◌∷◌, ◌≡◌, refl, if◌then◌else◌, ap, ◌∙◌, Bool, true, Uuid, length,
}
use open_machine_core.Prelude.Outcome.{ok}
use open_machine_core.System.{Lifecycle, UpdateProgress, string_of}
use open_machine_core.Modbus.Device.{Device}
use open_machine_core.Devices.Manager.{Manager, list_devices, stop_all}
use open_machine_core.Devices.Manager.Stopping.{IsSound, list_devices-stop_all}

pub record CurrentStatus : Type 0 where
  pub state : String
  pub device_count : ℕ
  pub connected_devices : ℕ

pub record DetailedStatus : Type 0 where
  pub state : String
  pub update_progress : UpdateProgress
  pub timestamp : ℕ

module _ {F : Type 0} where
  -- d.Client != nil: `NewDevice` sets it, and nothing unsets it.
  abbrev has_client : Device F → Bool
  has_client d = true

  abbrev count_connected : List (Device F) → ℕ
  count_connected [] = 0
  count_connected (d ∷ ds) = if has_client d then suc (count_connected ds) else count_connected ds

  unfoldable pub get_current_status : Lifecycle → Manager F → CurrentStatus
  unfolding list_devices string_of
  get_current_status lm m =
      let devices = list_devices m in
      record {
        state = string_of lm.current_state;
        device_count = length devices;
        connected_devices = count_connected devices;
      }

  count_connected-eq : (ds : List (Device F)) → count_connected ds ≡ length ds
  count_connected-eq [] = refl
  count_connected-eq (d ∷ ds) = ap suc (count_connected-eq ds)

  -- After everything was stopped, the status shows as many connected devices as the manager had.
  pub get_current_status-stop_all :
      (fails : Uuid → Bool) (lm : Lifecycle) (m stopped : Manager F)
      → IsSound m
      → stop_all fails m ≡ ok stopped
      → (get_current_status lm stopped).connected_devices ≡ length (list_devices m)
  unfolding get_current_status
  get_current_status-stop_all fails lm m stopped v e =
      count_connected-eq (list_devices stopped) ∙ list_devices-stop_all fails m stopped v e

unfoldable pub get_current_status_detailed : ℕ → Lifecycle → DetailedStatus
unfolding string_of
get_current_status_detailed now lm = record {
  state = string_of lm.current_state;
  update_progress = lm.update_progress;
  timestamp = now;
}

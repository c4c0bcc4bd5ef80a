-- ===== src/Devices/Manager/Loading.antt =====
-- manager.go: loading devices and starting their pollers, any number of times.
use open_machine_core.Prelude.{
  ℕ, String, List, [], ◌∷◌, ◌≡◌, ◌≢◌, refl, Bool, Option, none, some, ◌⊎◌, inl, inr, Uuid,
}
use open_machine_core.Prelude.Outcome.{Outcome, ok, err, panic, ◌>>=◌, Gives, Gives-bind}
use open_machine_core.Prelude.Maps.{StringMap, lookup_id, EachEntry-insert_id}
use open_machine_core.Types.{Float64, DeviceProfileDefinition, DeviceComposition, ModuleDefinition}
use open_machine_core.Devices.Composer.{ComposeError, compose_device}
use open_machine_core.Modbus.Client
use open_machine_core.Modbus.Client.{Client}
use open_machine_core.Modbus.Device
use open_machine_core.Modbus.Device.{Device, DeviceError, new_device}
use open_machine_core.Modbus.Poller
use open_machine_core.Modbus.Poller.{Poller, new_poller}
use open_machine_core.Devices.Manager.{
  Manager, ManagerError, new_manager, kept, composed, started, load_device_from_composition,
  start_poller, stop_all, address_of,
}
use open_machine_core.Devices.Manager.Stopping.{
  PollerIsSound, DeviceIsSound, IsSound, stop_all-AllStopped,
}

pub data Operation (F : Type 0) : Type 0 where
  loading : Uuid → Option ℕ → DeviceComposition → Operation F
  polling : Uuid → Operation F
  stopping : (Uuid → Bool) → Operation F

-- The program goes on with the manager that a method leaves, whatever error it returns, unless it
-- panics.
unfoldable pub survived :
    {F A : Type 0} → Manager F × Outcome ManagerError A → Outcome (Unit {0}) (Manager F)
survived (m, ok a) = ok m
survived (m, err e) = ok m
survived (m, panic) = panic

abbrev Sound : {F : Type 0} → Outcome (Unit {0}) (Manager F) → Type 0
Sound r = Gives IsSound r

-- A new device that was connected, or not, is sound, and connecting it does not panic.
abbrev NewDevice : {F : Type 0} → Device F × Outcome DeviceError (Unit {0}) → Type 0
NewDevice r = DeviceIsSound r.0 × (r.1 ≢ panic)

new_device_lem :
    {F : Type 0} (dial : Option ℕ) (name address : String) (profile : DeviceProfileDefinition F)
    (io_mapping : StringMap String)
    → NewDevice (Device.connect dial (new_device name address profile io_mapping))
unfolding Device.connect Client.connect new_device
new_device_lem none name address profile io_mapping = ((λ e. cc), λ e. cc)
new_device_lem (some socket) name address profile io_mapping = ((λ e q. cc), λ e. cc)

kept-Sound :
    {F : Type 0} (id : Uuid) (r : Device F × Outcome DeviceError (Unit {0})) (m : Manager F)
    → NewDevice r
    → IsSound m
    → Sound (survived (kept id r m))
unfolding survived
kept-Sound id (d, ok u) m h v = (
  _,
  refl,
  record {
    pollers = v.pollers;
    devices = EachEntry-insert_id DeviceIsSound id d m.devices h.0 v.devices;
  },
)
kept-Sound id (d, err e) m h v = (m, refl, v)
kept-Sound id (d, panic) m h v = absurd (h.1 refl)

started-Sound :
    {F : Type 0} (id : Uuid) (o : Option (Device F)) (m : Manager F)
    → IsSound m
    → Sound (survived (started id o m))
unfolding survived Poller.start new_poller
started-Sound id none m v = (m, refl, v)
started-Sound id (some d) m v = (
  _,
  refl,
  record {
    pollers =
        EachEntry-insert_id PollerIsSound id (Poller.start new_poller) m.pollers (λ e. refl)
          v.pollers;
    devices = v.devices;
  },
)

module _ (fl : Float64) (load_module : String → String ⊎ ModuleDefinition (fl.F)) where
  open fl use {F}

  composed-Sound :
      (id : Uuid) (dial : Option ℕ) (comp : DeviceComposition)
      (r : ComposeError ⊎ DeviceProfileDefinition F) (m : Manager F)
      → IsSound m
      → Sound (survived (composed fl id dial comp r m))
  unfolding survived
  composed-Sound id dial comp (inl e) m v = (m, refl, v)
  composed-Sound id dial comp (inr profile) m v =
      kept-Sound id
        (Device.connect dial (
          new_device comp.instance_id
            (address_of comp.composition.coupler.ip_address comp.composition.coupler.port) profile
            comp.io_mapping))
        m
        (new_device_lem dial comp.instance_id
          (address_of comp.composition.coupler.ip_address comp.composition.coupler.port) profile
          comp.io_mapping)
        v

  unfoldable pub run_operation : Operation F → Manager F → Outcome (Unit {0}) (Manager F)
  unfolding load_device_from_composition start_poller stop_all survived
  run_operation (loading id dial comp) m =
      survived (load_device_from_composition fl load_module id dial comp m)
  run_operation (polling id) m = survived (start_poller id m)
  run_operation (stopping fails) m = stop_all fails m

  unfoldable pub run_operations : List (Operation F) → Manager F → Outcome (Unit {0}) (Manager F)
  unfolding run_operation
  run_operations [] m = ok m
  run_operations (o ∷ os) m = run_operation o m >>= run_operations os

  run_operation-Sound : (o : Operation F) (m : Manager F) → IsSound m → Sound (run_operation o m)
  unfolding run_operation load_device_from_composition start_poller
  run_operation-Sound (loading id dial comp) m v =
      composed-Sound id dial comp (compose_device fl load_module comp) m v
  run_operation-Sound (polling id) m v = started-Sound id (lookup_id id m.devices) m v
  run_operation-Sound (stopping fails) m v =
      let (m', e, s) = stop_all-AllStopped fails m v in (m', e, s.3)

  -- However devices are loaded from compositions, pollers started and everything stopped, in any
  -- order and again and again, nothing panics, the loading and the starting included, and the
  -- manager stays sound.
  pub run_operations-IsSound :
      (os : List (Operation F)) (m : Manager F)
      → IsSound m
      → (m' : Manager F) × (run_operations os m ≡ ok m') × IsSound m'
  unfolding run_operations
  run_operations-IsSound [] m v = (m, refl, v)
  run_operations-IsSound (o ∷ os) m v =
      Gives-bind (run_operation o m) (run_operations os) (run_operation-Sound o m v)
        (λ m' v'. run_operations-IsSound os m' v')

pub new_manager-IsSound : {F : Type 0} (paths : List String) → IsSound (new_manager {F = F} paths)
unfolding new_manager
new_manager-IsSound paths = record { pollers = tt; devices = tt }

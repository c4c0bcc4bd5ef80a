-- ===== src/Examples/Manager.antt =====
-- The device manager at concrete values.
use open_machine_core.Prelude.{
  ℕ, ◌+◌, ◌≡◌, refl, [], ◌∷◌, String, ◌⊎◌, inr, none, some, Uuid, length, Bool, true, false,
}
use open_machine_core.Prelude.Int.{pos}
use open_machine_core.Prelude.Outcome.{ok}
use open_machine_core.Prelude.Maps.{lookup, lookup_id}
use open_machine_core.Types.{ModuleDefinition, DeviceComposition, DeviceProfileDefinition}
use open_machine_core.Devices.Composer.{compose_device}
use open_machine_core.Modbus.Client
use open_machine_core.Modbus.Device
use open_machine_core.Modbus.Device.{Device, new_device}
use open_machine_core.Devices.Manager.{
  Manager, Files, new_manager, load, stop_all, load_devices, list_devices, get_device,
}
use open_machine_core.Devices.Manager.Stopping.{IsSound, AllStopped, stop_all-AllStopped}
use open_machine_core.Devices.Manager.Loading.{
  loading, polling, stopping, run_operations, run_operations-IsSound, new_manager-IsSound,
}
use open_machine_core.Devices.Manager.Reloading.{load_devices-stop_all}
use open_machine_core.Examples.{whole}

abbrev coupler : ModuleDefinition ℕ
coupler = record {
  info = record {
    id = "ek";
    vendor = "acme";
    model = "ek1";
    module_type = "coupler";
    version = "1";
    description = "";
  };
  process_image = record { input_bytes = pos 0; output_bytes = pos 0 };
  channels = [];
  registers = [];
}

abbrev load_module : String → String ⊎ ModuleDefinition ℕ
load_module path = inr coupler

abbrev press : DeviceComposition
press = record {
  instance_id = "press";
  composition = record {
    coupler = record {
      module_path = "ek";
      ip_address = "10.0.0.2";
      port = pos 502;
      unit_id = pos 1;
    };
    terminals = [];
  };
  io_mapping = [];
}

abbrev empty_manager : Manager ℕ
empty_manager = new_manager ("profiles" ∷ [])

abbrev profile : DeviceProfileDefinition ℕ
profile = record {
  device_profile = record {
    id = "p";
    vendor = "acme";
    model = "m";
    version = "1";
    description = "";
  };
  connection = record {
    protocol = "modbus_tcp";
    port = pos 502;
    unit_id = pos 1;
    poll_interval_ms = pos 50;
    timeout_ms = pos 1000;
  };
  registers = [];
  groups = [];
}

abbrev files : Files ℕ
files = record {
  join = λ a b. b;
  read_file = λ path. some "{}";
  validate_profile = λ content. none;
  unmarshal = λ content. inr profile;
}

first_load : (load files "pump" empty_manager).1 ≡ ok profile
unfolding load new_manager lookup
first_load = refl

run_operations-IsSound_example :
    (m : Manager ℕ) × (run_operations whole load_module
        (loading 1 (some 9) press
          ∷ polling 1
          ∷ stopping (λ id. false)
          ∷ loading 2 (some 8) press
          ∷ stopping (λ id. true)
          ∷ [])
        empty_manager
      ≡ ok m)
    × IsSound m
run_operations-IsSound_example =
    run_operations-IsSound whole load_module
      (loading 1 (some 9) press
        ∷ polling 1
        ∷ stopping (λ id. false)
        ∷ loading 2 (some 8) press
        ∷ stopping (λ id. true)
        ∷ [])
      empty_manager (new_manager-IsSound ("profiles" ∷ []))

abbrev device : Device ℕ
device = (Device.connect (some 9) (new_device "press" "10.0.0.2:502" profile [])).0

abbrev plant : Manager ℕ
plant = record empty_manager { devices = (1, device) ∷ [] }

plant-IsSound : IsSound plant
unfolding Device.connect Client.connect new_device new_manager
plant-IsSound = record { pollers = tt; devices = (λ e q. cc, tt) }

abbrev closes_all : Uuid → Bool
closes_all id = false

stop_all-AllStopped_example :
    (m : Manager ℕ) × (stop_all closes_all plant ≡ ok m) × AllStopped closes_all plant m
stop_all-AllStopped_example = stop_all-AllStopped closes_all plant plant-IsSound

abbrev stopped : Manager ℕ
stopped = record plant {
  devices =
      (
        1,
        record device {
          connected = false;
          client = record device.client { connected = false; conn = none };
        },
      )
      ∷ [];
}

plant_stopped : stop_all closes_all plant ≡ ok stopped
unfolding stop_all Device.connect Device.disconnect Client.connect Client.close new_device
    new_manager
plant_stopped = refl

load_devices-stop_all_example :
    (length (list_devices (load_devices whole load_module ((press, 2, some 8) ∷ []) stopped))
      ≡ length (list_devices plant) + 1)
    × ((id : Uuid) (d : Device ℕ)
        → get_device id stopped ≡ some d
        → get_device id (load_devices whole load_module ((press, 2, some 8) ∷ []) stopped) ≡ some d)
unfolding compose_device lookup_id
load_devices-stop_all_example =
    load_devices-stop_all whole load_module closes_all ((press, 2, some 8) ∷ []) plant stopped
      plant-IsSound plant_stopped (((_, refl), λ e. cc), tt) (refl, tt, tt)

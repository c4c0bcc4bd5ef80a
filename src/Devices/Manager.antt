-- ===== src/Devices/Manager.antt =====
-- internal/devices/loader.go and manager.go: profiles with their cache, the maps of devices and
-- pollers, and the loading of the stored devices by internal/system/lifecycle.go. Files, the JSON
-- decoder and the schema are parameters. A map is the list of its entries; `range` visits them in
-- the order of the list, which Go does not fix. The uuid of a new device is an argument.
pub mod Loading
pub mod Reloading
pub mod Stopping
use open_machine_core.Prelude.{
  ℕ, ◌+◌, String, List, [], ◌∷◌, ◌++◌, Bool, true, false, Option, none, some, str_eq, map, length,
  if◌then◌else◌, ◌⊎◌, inl, inr, Uuid,
}
use open_machine_core.Prelude.Int.{ℤ}
use open_machine_core.Prelude.Outcome.{Outcome, ok, err, panic, ◌>>=◌}
use open_machine_core.Prelude.Maps.{StringMap, UuidMap, lookup, insert, lookup_id, insert_id}
use open_machine_core.Prelude.Text.{text_append}
use open_machine_core.Types.{Float64, DeviceProfileDefinition, DeviceComposition, ModuleDefinition}
use open_machine_core.Devices.Composer.{ComposeError, compose_device, decimal_int}
use open_machine_core.Modbus.Device
use open_machine_core.Modbus.Device.{Device, DeviceError, new_device}
use open_machine_core.Modbus.Poller
use open_machine_core.Modbus.Poller.{Poller, new_poller}

pub data ManagerError : Type 0 where
  profile_not_found : String → ManagerError
  validation_failed : String → String → ManagerError
  unmarshal_failed : String → ManagerError
  compose_failed : ComposeError → ManagerError
  connect_failed : DeviceError → ManagerError
  device_not_found : Uuid → ManagerError

-- The file system at one moment, the schema and the decoder. `none` is a file that cannot be read.
pub record Files (F : Type 0) : Type 0 where
  pub join : String → String → String
  pub read_file : String → Option String
  pub validate_profile : String → Option String  -- the error, if there is one
  pub unmarshal : String → String ⊎ DeviceProfileDefinition F

pub record Manager (F : Type 0) : Type 0 where
  pub search_paths : List String
  pub cache : StringMap (DeviceProfileDefinition F)
  pub devices : UuidMap (Device F)
  pub pollers : UuidMap Poller
  pub replaced : List Poller  -- pollers that a later one took the place of in the map

-- "ip:port", as `NewDevice` builds it
unfoldable pub address_of : String → ℤ → String
unfolding decimal_int
address_of ip port = text_append ip (text_append ":" (decimal_int port))

abbrev first_read : Option String → String → Option (String × String) → Option (String × String)
first_read none path rest = rest
first_read (some content) path rest = some (path, content)

abbrev replaced_by : Option Poller → List Poller
replaced_by none = []
replaced_by (some p) = p ∷ []

abbrev keep_poller : Uuid → UuidMap Poller → Poller → Outcome (Unit {0}) (UuidMap Poller)
keep_poller id rest p = ok ((id, p) ∷ rest)

unfoldable pub stop_pollers : UuidMap Poller → Outcome (Unit {0}) (UuidMap Poller)
stop_pollers [] = ok []
stop_pollers ((id, p) ∷ pollers) =
    Poller.stop p >>= λ q. stop_pollers pollers >>= λ rest. keep_poller id rest q

module _ {F : Type 0} where
  unfoldable pub new_manager : List String → Manager F
  new_manager search_paths = record {
    search_paths = search_paths;
    cache = [];
    devices = [];
    pollers = [];
    replaced = [];
  }

  -- the loop over the search paths: the first file that can be read, and its path
  unfoldable pub find_file : Files F → String → List String → Option (String × String)
  find_file files name [] = none
  find_file files name (search_path ∷ search_paths) =
      let path = files.join search_path (text_append name ".json") in
      first_read (files.read_file path) path (find_file files name search_paths)

  abbrev pub decoded :
      String
      → String ⊎ DeviceProfileDefinition F
      → Manager F
      → Manager F × Outcome ManagerError (DeviceProfileDefinition F)
  decoded name (inl e) m = (m, err (unmarshal_failed e))
  decoded name (inr profile) m = (record m { cache = insert name profile m.cache }, ok profile)

  abbrev pub validated :
      Files F
      → String
      → String
      → String
      → Option String
      → Manager F
      → Manager F × Outcome ManagerError (DeviceProfileDefinition F)
  validated files name path content (some e) m = (m, err (validation_failed path e))
  validated files name path content none m = decoded name (files.unmarshal content) m

  abbrev pub found :
      Files F
      → String
      → Option (String × String)
      → Manager F
      → Manager F × Outcome ManagerError (DeviceProfileDefinition F)
  found files name none m = (m, err (profile_not_found name))
  found files name (some (path, content)) m =
      validated files name path content (files.validate_profile content) m

  abbrev pub cached :
      Files F
      → String
      → Option (DeviceProfileDefinition F)
      → Manager F
      → Manager F × Outcome ManagerError (DeviceProfileDefinition F)
  cached files name (some profile) m = (m, ok profile)
  cached files name none m = found files name (find_file files name m.search_paths) m

  unfoldable pub load :
      Files F → String → Manager F → Manager F × Outcome ManagerError (DeviceProfileDefinition F)
  unfolding find_file
  load files name m = cached files name (lookup name m.cache) m

  unfoldable pub clear_cache : Manager F → Manager F
  clear_cache m = record m { cache = [] }

  -- Connecting a new device, and keeping it.
  abbrev pub kept :
      Uuid
      → Device F × Outcome DeviceError (Unit {0})
      → Manager F
      → Manager F × Outcome ManagerError Uuid
  kept id (d, ok _) m = (record m { devices = insert_id id d m.devices }, ok id)
  kept id (d, err e) m = (m, err (connect_failed e))
  kept id (d, panic) m = (m, panic)

  abbrev pub with_profile :
      Uuid
      → Option ℕ
      → String
      → String
      → StringMap String
      → Manager F × Outcome ManagerError (DeviceProfileDefinition F)
      → Manager F × Outcome ManagerError Uuid
  with_profile id dial name address io_mapping (m, ok profile) =
      kept id (Device.connect dial (new_device name address profile io_mapping)) m
  with_profile id dial name address io_mapping (m, err e) = (m, err e)
  with_profile id dial name address io_mapping (m, panic) = (m, panic)

  unfoldable pub load_device :
      Files F
      → Uuid
      → Option ℕ
      → String
      → String
      → String
      → ℤ
      → StringMap String
      → Manager F
      → Manager F × Outcome ManagerError Uuid
  unfolding load address_of
  load_device files id dial name profile_path ip port io_mapping m =
      with_profile id dial name (address_of ip port) io_mapping (load files profile_path m)

  -- The new poller takes the old one's place in the map; `Start` returns no error.
  abbrev pub started :
      Uuid → Option (Device F) → Manager F → Manager F × Outcome ManagerError (Unit {0})
  started id none m = (m, err (device_not_found id))
  started id (some d) m = (
    record m {
      pollers = insert_id id (Poller.start new_poller) m.pollers;
      replaced = replaced_by (lookup_id id m.pollers) ++ m.replaced;
    },
    ok tt,
  )

  unfoldable pub start_poller : Uuid → Manager F → Manager F × Outcome ManagerError (Unit {0})
  start_poller id m = started id (lookup_id id m.devices) m

  unfoldable pub get_device : Uuid → Manager F → Option (Device F)
  get_device id m = lookup_id id m.devices

  unfoldable pub device_named : String → UuidMap (Device F) → Option (Uuid × Device F)
  device_named name [] = none
  device_named name ((id, d) ∷ devices) =
      if str_eq d.name name then some (id, d) else device_named name devices

  unfoldable pub get_device_by_name : String → Manager F → Option (Uuid × Device F)
  unfolding device_named
  get_device_by_name name m = device_named name m.devices

  unfoldable pub list_devices : Manager F → List (Device F)
  list_devices m = map (λ e. e.1) m.devices

  -- An error is logged; a panic ends the program.
  abbrev pub disconnected :
      Uuid
      → Device F × Outcome DeviceError (Unit {0})
      → Outcome (Unit {0}) (UuidMap (Device F))
      → Outcome (Unit {0}) (UuidMap (Device F))
  disconnected id (d, panic) rest = panic
  disconnected id (d, _) rest = rest >>= λ devices. ok ((id, d) ∷ devices)

  -- `fails id` tells whether closing the connection of this device fails.
  unfoldable pub disconnect_devices :
      (Uuid → Bool) → UuidMap (Device F) → Outcome (Unit {0}) (UuidMap (Device F))
  disconnect_devices fails [] = ok []
  disconnect_devices fails ((id, d) ∷ devices) =
      disconnected id (Device.disconnect (fails id) d) (disconnect_devices fails devices)

  -- It returns no error.
  unfoldable pub stop_all : (Uuid → Bool) → Manager F → Outcome (Unit {0}) (Manager F)
  unfolding stop_pollers disconnect_devices
  stop_all fails m = stop_pollers m.pollers >>= λ pollers.
      disconnect_devices fails m.devices >>= λ devices.
      ok (record m { pollers = pollers; devices = devices })

module _ (fl : Float64) where
  open fl use {F}

  abbrev pub composed :
      Uuid
      → Option ℕ
      → DeviceComposition
      → ComposeError ⊎ DeviceProfileDefinition F
      → Manager F
      → Manager F × Outcome ManagerError Uuid
  composed id dial comp (inl e) m = (m, err (compose_failed e))
  composed id dial comp (inr profile) m =
      with_profile id dial comp.instance_id
        (address_of comp.composition.coupler.ip_address comp.composition.coupler.port)
        comp.io_mapping (m, ok profile)

  unfoldable pub load_device_from_composition :
      (String → String ⊎ ModuleDefinition F)
      → Uuid
      → Option ℕ
      → DeviceComposition
      → Manager F
      → Manager F × Outcome ManagerError Uuid
  unfolding address_of
  load_device_from_composition load_module id dial comp m =
      composed id dial comp (compose_device fl load_module comp) m

  abbrev pub polled : Manager F × Outcome ManagerError Uuid → Manager F
  polled (m, ok id) = (start_poller id m).0
  polled (m, _) = m

  -- The loop of `loadDevicesFromDB`, an error being logged; each device has its uuid and its socket.
  unfoldable pub load_devices :
      (String → String ⊎ ModuleDefinition F)
      → List (DeviceComposition × Uuid × Option ℕ)
      → Manager F
      → Manager F
  unfolding load_device_from_composition start_poller
  load_devices load_module [] m = m
  load_devices load_module ((comp, id, dial) ∷ comps) m =
      load_devices load_module comps
        (polled (load_device_from_composition load_module id dial comp m))

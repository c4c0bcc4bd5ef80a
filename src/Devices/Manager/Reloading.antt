-- ===== src/Devices/Manager/Reloading.antt =====
-- manager.go and lifecycle.go: what loading the stored devices again does, as an update of the system
-- does after it has stopped everything.
use open_machine_core.Prelude.{
  ℕ, ◌+◌, String, List, [], ◌∷◌, ◌≡◌, ◌≢◌, refl, sym, ap, subst, ◌∙◌, Bool, Option, none, some,
  ==_iff, ◌⊎◌, inl, inr, Uuid, All, length, arith, length-map,
}
use open_machine_core.Prelude.Outcome.{ok}
use open_machine_core.Prelude.Maps.{UuidMap, lookup_id, insert_id, lookup_id-insert_id}
use open_machine_core.Types.{Float64, DeviceProfileDefinition, DeviceComposition, ModuleDefinition}
use open_machine_core.Devices.Composer.{ComposeError, compose_device}
use open_machine_core.Modbus.Client
use open_machine_core.Modbus.Client.{new_client}
use open_machine_core.Modbus.Device
use open_machine_core.Modbus.Device.{Device, new_device}
use open_machine_core.Devices.Manager.Stopping.{IsSound, list_devices-stop_all}
use open_machine_core.Devices.Manager.{
  stop_all, Manager, composed, started, polled, load_device_from_composition, start_poller,
  address_of, get_device, list_devices, load_devices,
}

length-insert_id :
    {V : Type 0} (id : Uuid) (v : V) (entries : UuidMap V)
    → lookup_id id entries ≡ none
    → length (insert_id id v entries) ≡ length entries + 1
unfolding insert_id lookup_id
length-insert_id id v [] h = refl
length-insert_id id v ((at, here) ∷ entries) h = ground (arith, length-insert_id id v entries)

module _ (fl : Float64) (load_module : String → String ⊎ ModuleDefinition (fl.F)) where
  open fl use {F}

  -- It can be composed, and its address answers.
  abbrev pub Loads : DeviceComposition × Uuid × Option ℕ → Type 0
  Loads (comp, id, dial) =
      ((profile : DeviceProfileDefinition F) × (compose_device fl load_module comp ≡ inr profile))
      × (dial ≢ none)

  -- The ids are new, and differ.
  abbrev pub Fresh : List (DeviceComposition × Uuid × Option ℕ) → UuidMap (Device F) → Type 0
  Fresh [] devices = Unit
  Fresh ((comp, id, dial) ∷ comps) devices =
      (lookup_id id devices ≡ none) × All (λ c. c.1 ≢ id) comps × Fresh comps devices

  Fresh-insert_id :
      (comps : List (DeviceComposition × Uuid × Option ℕ)) (id : Uuid) (d : Device F)
      (devices : UuidMap (Device F))
      → All (λ c. c.1 ≢ id) comps
      → Fresh comps devices
      → Fresh comps (insert_id id d devices)
  Fresh-insert_id [] id d devices n f = tt
  Fresh-insert_id ((comp, other, dial) ∷ comps) id d devices n f = (
    ground (arith, lookup_id-insert_id id other d devices, ==_iff id other, n.0, f.0),
    f.1,
    Fresh-insert_id comps id d devices n.1 f.2,
  )

  started_devices :
      (id : Uuid) (o : Option (Device F)) (m : Manager F) → (started id o m).0.devices ≡ m.devices
  started_devices id none m = refl
  started_devices id (some d) m = refl

  -- The maps of devices before and after a composition that loads.
  composed_devices :
      (id : Uuid) (dial : Option ℕ) (comp : DeviceComposition)
      (r : ComposeError ⊎ DeviceProfileDefinition F) (m : Manager F)
      → ((profile : DeviceProfileDefinition F) × (r ≡ inr profile))
      → dial ≢ none
      → (d : Device F) × ((polled fl (composed fl id dial comp r m)).devices
          ≡ insert_id id d m.devices)
        × (d.name ≡ comp.instance_id)
  unfolding Device.connect Client.connect new_device new_client start_poller
  composed_devices id none comp r m h reachable = absurd (reachable refl)
  composed_devices id (some socket) comp (inl e) m (profile, h) reachable = cc
  composed_devices id (some socket) comp (inr profile) m h reachable =
      let address : String =
        address_of comp.composition.coupler.ip_address comp.composition.coupler.port in
      let d : Device F =
        (Device.connect (some socket)
          (new_device comp.instance_id address profile comp.io_mapping)).0 in
      let m' : Manager F = record m { devices = insert_id id d m.devices } in
      (d, started_devices id (lookup_id id m'.devices) m', refl)

  load_devices_lem :
      (comps : List (DeviceComposition × Uuid × Option ℕ)) (m : Manager F)
      → All Loads comps
      → Fresh comps m.devices
      → (length (load_devices fl load_module comps m).devices ≡ length m.devices + length comps)
        × ((id : Uuid) (d : Device F)
            → lookup_id id m.devices ≡ some d
            → lookup_id id (load_devices fl load_module comps m).devices ≡ some d)
  unfolding load_devices load_device_from_composition
  load_devices_lem [] m l f = (omega arith, λ id d h. h)
  load_devices_lem ((comp, at, dial) ∷ comps) m l f =
      let next : Manager F =
        polled fl (load_device_from_composition fl load_module at dial comp m) in
      let (d, e, named) =
        composed_devices at dial comp (compose_device fl load_module comp) m l.0.0 l.0.1 in
      let fresh = Fresh-insert_id comps at d m.devices f.1 f.2 in
      let r = load_devices_lem comps next l.1 (subst (λ ds. Fresh comps ds) (sym e) fresh) in
      (
        omega (arith, r.0, ap length e, length-insert_id at d m.devices f.0),
        λ id x h. r.1 id x (
            ap (λ ds. lookup_id id ds) e
            ∙ ground (arith, lookup_id-insert_id at id d m.devices, ==_iff at id, f.0, h)),
      )

  -- Stopping everything and loading compositions that can be composed and reached, under new ids,
  -- adds a device for each of them to those that were listed before, and keeps the stopped ones.
  pub load_devices-stop_all :
      (fails : Uuid → Bool) (comps : List (DeviceComposition × Uuid × Option ℕ))
      (m stopped : Manager F)
      → IsSound m
      → stop_all fails m ≡ ok stopped
      → All Loads comps
      → Fresh comps stopped.devices
      → (length (list_devices (load_devices fl load_module comps stopped))
          ≡ length (list_devices m) + length comps)
        × ((id : Uuid) (d : Device F)
            → get_device id stopped ≡ some d
            → get_device id (load_devices fl load_module comps stopped) ≡ some d)
  unfolding list_devices get_device
  load_devices-stop_all fails comps m stopped v e l f =
      let r = load_devices_lem comps stopped l f in
      (
        omega (
          arith,
          r.0,
          list_devices-stop_all fails m stopped v e,
          length-map (λ (x : Uuid × Device F). x.1) stopped.devices,
          length-map (λ (x : Uuid × Device F). x.1)
              (load_devices fl load_module comps stopped).devices,
        ),
        r.1,
      )

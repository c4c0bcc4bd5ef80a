-- ===== src/Devices/Manager/Stopping.antt =====
-- manager.go: stopping everything, and that it never panics.
use open_machine_core.Prelude.{
  ℕ, map, ap, ◌∙◌, length, length-map, List, [], ◌∷◌, ◌≡◌, ◌≢◌, refl, sym, subst, Bool, true, false,
  Option, none, some, Uuid, All, arith,
}
use open_machine_core.Prelude.Outcome.{Outcome, ok, panic, ok_inj, Gives, Gives-bind}
use open_machine_core.Prelude.Maps.{UuidMap, EachEntry}
use open_machine_core.Modbus.Client
use open_machine_core.Modbus.Client.{Client}
use open_machine_core.Modbus.Device
use open_machine_core.Modbus.Device.{Device, DeviceError}
use open_machine_core.Modbus.Poller
use open_machine_core.Modbus.Poller.{Poller}
use open_machine_core.Devices.Manager.{
  Manager, list_devices, stop_pollers, disconnected, disconnect_devices, stop_all,
}

-- Stopping it does not panic.
abbrev pub PollerIsSound : Poller → Type 0
PollerIsSound p = p.running ≡ true → p.stop_closed ≡ false

-- Disconnecting it does not panic.
abbrev pub DeviceIsSound : {F : Type 0} → Device F → Type 0
DeviceIsSound d = d.client.connected ≡ true → d.client.conn ≢ none

pub record IsSound {F : Type 0} (m : Manager F) : Type 0 where
  pub pollers : EachEntry PollerIsSound m.pollers
  pub devices : EachEntry DeviceIsSound m.devices

-- A poller that was stopped, and a device that was disconnected.
abbrev pub Idle : Poller → Type 0
Idle p = p.running ≡ false

abbrev Stopped : Poller → Type 0
Stopped p = Idle p × PollerIsSound p

stop-Gives :
    (running closed : Bool) (loops : ℕ)
    → let p : Poller = record { running = running; stop_closed = closed; loops = loops } in
      PollerIsSound p → Gives Stopped (Poller.stop p)
unfolding Poller.stop
stop-Gives false closed loops h = (_, refl, (refl, λ e. cc))
stop-Gives true false loops h = (_, refl, (refl, λ e. cc))
stop-Gives true true loops h = cc (h refl)

stop_pollers-Gives :
    (pollers : UuidMap Poller)
    → EachEntry PollerIsSound pollers
    → Gives (EachEntry Stopped) (stop_pollers pollers)
unfolding stop_pollers
stop_pollers-Gives [] h = ([], refl, tt)
stop_pollers-Gives ((id, p) ∷ pollers) h =
    Gives-bind (Poller.stop p) _ (stop-Gives p.running p.stop_closed p.loops h.0) λ q idle.
      Gives-bind (stop_pollers pollers) _ (stop_pollers-Gives pollers h.1)
        λ rest all. ((id, q) ∷ rest, refl, (idle, all))

-- What disconnecting a device, whose closing may fail, leaves.
abbrev Unplugged : {F : Type 0} → Bool → Device F → Type 0
Unplugged fails d = DeviceIsSound d × (fails ≡ false → d.connected ≡ false)

abbrev DisconnectedAs : {F : Type 0} → Bool → Device F × Outcome DeviceError (Unit {0}) → Type 0
DisconnectedAs fails r = Unplugged fails r.0 × (r.1 ≢ panic)

disconnect_lem :
    {F : Type 0} (plugged : Bool) (conn : Option ℕ) (open_socket fails : Bool) (d : Device F)
    → let client : Client = record d.client { connected = open_socket; conn = conn } in
      (open_socket ≡ true → conn ≢ none)
      → DisconnectedAs fails
          (Device.disconnect fails (record d { connected = plugged; client = client }))
unfolding Device.disconnect Client.close
disconnect_lem false conn open_socket fails d h = ((h, λ e. refl), λ e. cc)
disconnect_lem true conn false fails d h = ((h, λ e. refl), λ e. cc)
disconnect_lem true none true fails d h = absurd (h refl refl)
disconnect_lem true (some socket) true true d h = ((λ e. cc, λ e. cc), λ e. cc)
disconnect_lem true (some socket) true false d h = ((λ e. cc, λ e. refl), λ e. cc)

abbrev UnpluggedEach : {F : Type 0} → (Uuid → Bool) → UuidMap (Device F) → Type 0
UnpluggedEach fails devices = All (λ e. Unplugged (fails e.0) e.1) devices

-- The entries under the same ids.
abbrev ids : {V : Type 0} → UuidMap V → List Uuid
ids entries = map (λ e. e.0) entries

abbrev DisconnectedLike :
    {F : Type 0} → (Uuid → Bool) → UuidMap (Device F) → UuidMap (Device F) → Type 0
DisconnectedLike fails before after = UnpluggedEach fails after × (ids after ≡ ids before)

disconnected-Gives :
    {F : Type 0} (fails : Uuid → Bool) (id : Uuid) (r : Device F × Outcome DeviceError (Unit {0}))
    (before : UuidMap (Device F)) (d : Device F) (rest : Outcome (Unit {0}) (UuidMap (Device F)))
    → DisconnectedAs (fails id) r
    → Gives (λ after. DisconnectedLike fails before after) rest
    → Gives (λ after. DisconnectedLike fails ((id, d) ∷ before) after) (disconnected id r rest)
disconnected-Gives fails id (d', panic) before d rest h all = absurd (h.1 refl)
disconnected-Gives fails id (d', _) before d rest h all =
    Gives-bind rest _ all λ after p. ((id, d') ∷ after, refl, ((h.0, p.0), ap (λ is. id ∷ is) p.1))

disconnect_devices-Gives :
    {F : Type 0} (fails : Uuid → Bool) (devices : UuidMap (Device F))
    → EachEntry DeviceIsSound devices
    → Gives (λ after. DisconnectedLike fails devices after) (disconnect_devices fails devices)
unfolding disconnect_devices
disconnect_devices-Gives fails [] h = ([], refl, (tt, refl))
disconnect_devices-Gives fails ((id, d) ∷ devices) h =
    disconnected-Gives fails id (Device.disconnect (fails id) d) devices d
      (disconnect_devices fails devices)
      (disconnect_lem d.connected d.client.conn d.client.connected (fails id) d h.0)
      (disconnect_devices-Gives fails devices h.1)

-- What `StopAll` leaves of a manager.
abbrev pub AllStopped : {F : Type 0} → (Uuid → Bool) → Manager F → Manager F → Type 0
AllStopped fails before after =
    EachEntry Idle after.pollers
    × All (λ e. fails e.0 ≡ false → e.1.connected ≡ false) after.devices
    × (ids after.devices ≡ ids before.devices)
    × IsSound after

All-map :
    {V : Type 0} {P Q : V → Type 0} (xs : List V) → ((v : V) → P v → Q v) → All P xs → All Q xs
All-map [] f h = tt
All-map (x ∷ xs) f h = (f x h.0, All-map xs f h.1)

-- From a sound manager, stopping everything does not panic: it returns, no poller of the map runs
-- any more, every device whose connection could be closed is disconnected, and all devices are
-- still in the map.
pub stop_all-AllStopped :
    {F : Type 0} (fails : Uuid → Bool) (m : Manager F)
    → IsSound m
    → (m' : Manager F) × (stop_all fails m ≡ ok m') × AllStopped fails m m'
unfolding stop_all
stop_all-AllStopped fails m v =
    Gives-bind (stop_pollers m.pollers) _ (stop_pollers-Gives m.pollers v.pollers) λ pollers ps.
      Gives-bind (disconnect_devices fails m.devices) _
        (disconnect_devices-Gives fails m.devices v.devices)
        λ devices ds. (
          record m { pollers = pollers; devices = devices },
          refl,
          (
            All-map pollers (λ e p. p.0) ps,
            All-map devices (λ e p. p.1) ds.0,
            ds.1,
            record {
              pollers = All-map pollers (λ e p. p.1) ps;
              devices = All-map devices (λ e p. p.0) ds.0;
            },
          ),
        )

-- None of them leaves the list.
pub list_devices-stop_all :
    {F : Type 0} (fails : Uuid → Bool) (m stopped : Manager F)
    → IsSound m
    → stop_all fails m ≡ ok stopped
    → length (list_devices stopped) ≡ length (list_devices m)
unfolding list_devices
list_devices-stop_all {F} fails m stopped v e =
    let (m', e', all) = stop_all-AllStopped fails m v in
    let same : ids stopped.devices ≡ ids m.devices =
      subst (λ (x : Manager F). ids x.devices ≡ ids m.devices) (ok_inj (sym e' ∙ e)) all.2 in
    omega (
      arith,
      ap length same,
      length-map (λ (x : Uuid × Device F). x.0) stopped.devices,
      length-map (λ (x : Uuid × Device F). x.0) m.devices,
      length-map (λ (x : Uuid × Device F). x.1) m.devices,
      length-map (λ (x : Uuid × Device F). x.1) stopped.devices,
    )

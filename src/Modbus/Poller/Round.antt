-- ===== src/Modbus/Poller/Round.antt =====
-- poller.go: a round of polling a slave that follows the specification.
use open_machine_core.Prelude.{
  ℕ, suc, ◌≡◌, ◌≢◌, ◌⊎◌, inl, inr, refl, ◌∙◌, sym, ap, subst, ⊎_elim, List, [], ◌∷◌, true, none,
  some, String, some_inj, Option-cases, str_eq, Bool-cases, eq_iff, Memᴰ,
}
use mathlib.Core.Bool.{false≢true}
use mathlib.Core.List.Memᴰ
use open_machine_core.Prelude.Outcome.{Outcome, ok, err, panic}
use open_machine_core.Prelude.Maps.{lookup}
use open_machine_core.Types.{Float64, RegisterDefinition}
use open_machine_core.Modbus.Client.{Peer}
use open_machine_core.Modbus.Client.Server.{Slave, serve}
use open_machine_core.Modbus.Device.{Device, DeviceError, Value, get_last_value, read_register}
use open_machine_core.Modbus.Device.Conversion.{
  IsWordRegister, value_at, value_at_returns, read_register-serve,
}
use open_machine_core.Modbus.Device.Access.{Keeps, read_register-Keeps}
use open_machine_core.Modbus.Poller.{poll_registers, poll_device, is_polled, go_on}

module _ (fl : Float64) (s : Slave) where
  open fl use {F}

  abbrev pub slave_peer : ℕ → Peer
  slave_peer i bytes = (serve s bytes).1

  -- The device is connected, and its map leads from the name of a register to that register.
  pub record IsReady (d : Device F) (regs : List (RegisterDefinition F)) : Type 0 where
    pub up : d.client.connected ≡ true
    pub open_conn : d.client.conn ≢ none
    pub mapped :
        (reg : RegisterDefinition F)
        → Memᴰ reg regs
        → (lookup reg.name d.register_map ≡ some reg) × IsWordRegister reg.register_type

  -- the remembered value of a register is the slave's
  abbrev pub IsFresh : Device F → RegisterDefinition F → Type 0
  IsFresh d reg = (v : Value F) → value_at fl s reg ≡ ok v → get_last_value reg.name d ≡ some v

  go_on-ok :
      (o : Device F × Outcome DeviceError (Value F))
      (next : Device F → Outcome DeviceError (Device F)) (v : Value F)
      → o.1 ≡ ok v
      → go_on fl o next ≡ next o.0
  go_on-ok (d, ok w) next v e = refl
  go_on-ok (d, err x) next v e = cc
  go_on-ok (d, panic) next v e = cc

  abbrev Maps : Device F → RegisterDefinition F → Type 0
  Maps d reg = lookup reg.name d.register_map ≡ some reg

  module _ (i : ℕ) (d : Device F) (reg : RegisterDefinition F) (up : d.client.connected ≡ true)
      (open_conn : d.client.conn ≢ none) (found : Maps d reg)
      (kind : IsWordRegister reg.register_type) where
    read_once : Device F
    read_once = (read_register fl (slave_peer i) reg.name d).0

    read_once_lem :
        ((v : Value F) × ((read_register fl (slave_peer i) reg.name d).1 ≡ ok v))
        × IsFresh read_once reg
    unfolding read_once
    read_once_lem = elim (Option-cases d.client.conn) [
      | inl e ↦ absurd (open_conn e)
      | inr (socket, conn) ↦
          let (read, cached) = read_register-serve fl d reg.name reg found s up conn kind in
          let (v, e) = value_at_returns fl s reg in ((v, read ∙ e), cached)
    ]

    read_once-Keeps : Keeps reg.name d read_once
    unfolding read_once
    read_once-Keeps = read_register-Keeps fl (slave_peer i) reg.name d

    -- reading one register keeps every other fresh value
    read_once-IsFresh :
        (other : RegisterDefinition F) → Maps d other → IsFresh d other → IsFresh read_once other
    unfolding get_last_value
    read_once-IsFresh other mapped fresh v e = elim (Bool-cases (str_eq other.name reg.name)) [
      | inl same ↦
          let name = (eq_iff other.name reg.name).0 same in
          let same_reg : other ≡ reg =
            some_inj (sym mapped ∙ ap (λ (n : String). lookup n d.register_map) name ∙ found) in
          subst (λ (r : RegisterDefinition F). IsFresh read_once r) (sym same_reg) read_once_lem.1 v
            e
      | inr differ ↦
          read_once-Keeps.other_values other.name
            (λ name. absurd (false≢true (sym differ ∙ (eq_iff other.name reg.name).1 name)))
          ∙ fresh v e
    ]

    read_once-IsReady :
        (regs : List (RegisterDefinition F)) → IsReady d regs → IsReady read_once regs
    read_once-IsReady regs r = record {
      up = read_once-Keeps.same_client ∙ up;
      open_conn = λ gone. open_conn (sym read_once-Keeps.same_conn ∙ gone);
      mapped = λ other m. (
        ap (lookup other.name) read_once-Keeps.same_registers ∙ (r.mapped other m).0,
        (r.mapped other m).1,
      );
    }

  poll_registers-serve :
      (regs : List (RegisterDefinition F)) (i : ℕ) (d : Device F)
      → IsReady d regs
      → (d' : Device F) × (poll_registers fl slave_peer i regs d ≡ ok d')
        × ((other : RegisterDefinition F)
            → Maps d other
            → IsFresh d other ⊎ Memᴰ other regs × (is_polled fl other.access ≡ true)
            → IsFresh d' other)
  unfolding poll_registers read_once
  poll_registers-serve [] i d r =
      (d, refl, λ other m h. ⊎_elim (λ fresh. fresh) (λ (mem, _). absurd (Memᴰ.not-nil mem)) h)
  poll_registers-serve (reg ∷ regs) i d r =
      let (found, kind) = r.mapped reg (Memᴰ.head refl) in
      let later : IsReady d regs = record {
        up = r.up;
        open_conn = r.open_conn;
        mapped = λ other m. r.mapped other (Memᴰ.tail m);
      } in
      elim (Bool-cases (is_polled fl reg.access)) [
        | inl polled ↦
            let d₁ = read_once i d reg r.up r.open_conn found kind in
            let ((v, read), fresh) = read_once_lem i d reg r.up r.open_conn found kind in
            let ready = read_once-IsReady i d reg r.up r.open_conn found kind regs later in
            let (d', ends, all) = poll_registers-serve regs (suc i) d₁ ready in
            let reads = go_on-ok (read_register fl (slave_peer i) reg.name d) _ v read in
            (
              d',
              rw polled (reads ∙ ends),
              λ other mapped h.
                  all other
                    (ap (lookup other.name)
                        (read_once-Keeps i d reg r.up r.open_conn found kind).same_registers
                      ∙ mapped)
                    (elim h [
                      | inl old ↦
                          inl
                            (read_once-IsFresh i d reg r.up r.open_conn found kind other mapped old)
                      | inr (m, p) ↦ elim (Memᴰ.cases_cons m) [
                        | inl e ↦ inl (subst (IsFresh d₁) (sym e) fresh)
                        | inr more ↦ inr (more, p)
                      ]
                    ]),
            )
        | inr skipped ↦
            let (d', ends, all) = poll_registers-serve regs (suc i) d later in
            (
              d',
              rw skipped ends,
              λ other mapped h. all other mapped (elim h [
                | inl old ↦ inl old
                | inr (m, p) ↦ elim (Memᴰ.cases_cons m) [
                  | inl e ↦ absurd (
                      false≢true (
                        sym skipped
                        ∙ ap (λ (x : RegisterDefinition F). is_polled fl x.access) (sym e)
                        ∙ p))
                  | inr more ↦ inr (more, p)
                ]
              ]),
            )
      ]

  -- For a connected device whose registers are mapped under their names and are holding or input
  -- registers, a poll of a slave that follows the specification ends, and the remembered value of
  -- every polled register is then what the slave holds.
  pub poll_device-serve :
      (d : Device F)
      → IsReady d d.profile.registers
      → (d' : Device F) × (poll_device fl slave_peer d ≡ ok d')
        × ((reg : RegisterDefinition F)
            → Memᴰ reg d.profile.registers
            → is_polled fl reg.access ≡ true
            → IsFresh d' reg)
  unfolding poll_device
  poll_device-serve d r =
      let (d', ends, all) = poll_registers-serve d.profile.registers 0 d r in
      (d', ends, λ reg m p. all reg (r.mapped reg m).0 (inr (m, p)))

-- ===== src/Modbus/Device/Access.antt =====
-- device.go: who may write, what an access leaves alone, and reading back what was written.
use open_machine_core.Prelude.{
  ℕ, ◌≡◌, ◌≢◌, ◌⊎◌, inl, inr, refl, ◌∙◌, List, [], ◌∷◌, true, some, String, arith, eq_iff, ==_refl,
  Option-cases, Memᴰ, Memᴰ-cons, ap,
}
use open_machine_core.Prelude.Outcome.{Outcome, ok, err, panic}
use open_machine_core.Prelude.Maps.{StringMap, lookup, insert, lookup-insert}
use open_machine_core.Types.{Float64, RegisterType, DataType, AccessType, RegisterDefinition}
use open_machine_core.Modbus.Frame.{
  write_single_register_request, read_holding_registers_request, read_input_registers_request,
}
use open_machine_core.Modbus.Client.{
  Client, Peer, send_frame, write_single_register, read_holding_registers, read_input_registers,
}
use open_machine_core.Modbus.Client.Server.{Slave, serve, write_bytes, write_single_register-serve}
use open_machine_core.Modbus.Client.Transactions.{send_frame-keeps}
use open_machine_core.Modbus.Device.{
  Device, DeviceError, Value, uint16_value, cache, uint8_of, convert_register_value, read_register,
  write_register, get_register_quantity, register_is_read_only, register_map_of,
}
use open_machine_core.Modbus.Device.Conversion.{read_register-serve}

module _ {F : Type 0} where
  -- The register map holds registers of the profile under their own names.
  register_map_of_sound :
      (regs : List (RegisterDefinition F)) (m : StringMap (RegisterDefinition F)) (name : String)
      (reg : RegisterDefinition F)
      → lookup name (register_map_of regs m) ≡ some reg
      → (Memᴰ reg regs × (reg.name ≡ name)) ⊎ (lookup name m ≡ some reg)
  unfolding register_map_of
  register_map_of_sound [] m name reg h = inr h
  register_map_of_sound (r ∷ regs) m name reg h = ground (
    arith,
    register_map_of_sound regs (insert r.name r m) name reg,
    lookup-insert r.name name r m,
    eq_iff r.name name,
    Memᴰ-cons reg r regs,
  )

  -- What an access of a register leaves alone.
  pub record Keeps (name : String) (d d' : Device F) : Type 0 where
    pub same_name : d'.name ≡ d.name
    pub same_profile : d'.profile ≡ d.profile
    pub same_mapping : d'.io_mapping ≡ d.io_mapping
    pub same_registers : d'.register_map ≡ d.register_map
    pub same_connected : d'.connected ≡ d.connected
    pub same_client : d'.client.connected ≡ d.client.connected
    pub same_conn : d'.client.conn ≡ d.client.conn
    pub other_values :
        (other : String) → other ≢ name → lookup other d'.last_values ≡ lookup other d.last_values

-- The slave after the request that was sent last.
abbrev pub obeyed : Slave → List (List ℕ) → Slave
obeyed s [] = s
obeyed s (bytes ∷ before) = (serve s bytes).0

module _ (fl : Float64) where
  open fl use {F}

  module _ (name : String) (d : Device F) (client : Client)
      (up : client.connected ≡ d.client.connected) (conn : client.conn ≡ d.client.conn) where
    unchanged : Keeps name d (record d { client = client })
    unchanged = record {
      same_name = refl;
      same_profile = refl;
      same_mapping = refl;
      same_registers = refl;
      same_connected = refl;
      same_client = up;
      same_conn = conn;
      other_values = λ other ne. refl;
    }

    cache-Keeps :
        (o : Outcome DeviceError (Value F))
        → Keeps name d (cache fl name o (record d { client = client })).0
    cache-Keeps (ok v) = record {
      same_name = refl;
      same_profile = refl;
      same_mapping = refl;
      same_registers = refl;
      same_connected = refl;
      same_client = up;
      same_conn = conn;
      other_values = λ other ne.
          rw (lookup-insert name other v d.last_values) (ground (arith, eq_iff name other));
    }
    cache-Keeps (err e) = unchanged
    cache-Keeps panic = unchanged

  -- Reading a register changes nothing of the device but the client's counter and the value that
  -- is remembered for that register.
  pub read_register-Keeps :
      (peer : Peer) (name : String) (d : Device F) → Keeps name d (read_register fl peer name d).0
  unfolding read_register read_holding_registers read_input_registers
  read_register-Keeps peer name d = elim (Option-cases (lookup name d.register_map)) [
    | inl missing ↦ rw missing (unchanged name d d.client refl refl)
    | inr (reg, found) ↦ read_found-Keeps reg.register_type found refl
  ]
    where
      read_found-Keeps :
          {reg : RegisterDefinition F} (t : RegisterType)
          → lookup name d.register_map ≡ some reg
          → reg.register_type ≡ t
          → Keeps name d (read_register fl peer name d).0
      read_found-Keeps RegisterType.coil found e =
          simp (found, e) (unchanged name d d.client refl refl)
      read_found-Keeps RegisterType.discrete_input found e =
          simp (found, e) (unchanged name d d.client refl refl)
      read_found-Keeps (RegisterType.other t) found e =
          simp (found, e) (unchanged name d d.client refl refl)
      read_found-Keeps {reg} RegisterType.holding_register found e =
          let request =
            read_holding_registers_request 0 (uint8_of d.profile.connection.unit_id) reg.address
              (get_register_quantity reg.data_type) in
          let (up, conn) = send_frame-keeps peer request d.client in
          simp (found, e) (cache-Keeps name d (send_frame peer request d.client).0 up conn _)
      read_found-Keeps {reg} RegisterType.input_register found e =
          let request =
            read_input_registers_request 0 (uint8_of d.profile.connection.unit_id) reg.address
              (get_register_quantity reg.data_type) in
          let (up, conn) = send_frame-keeps peer request d.client in
          simp (found, e) (cache-Keeps name d (send_frame peer request d.client).0 up conn _)

  -- A register that is not read_write is never written: no request leaves the device.
  pub write_register_read_only :
      (peer : Peer) (name : String) (value : Value F) (d : Device F) (reg : RegisterDefinition F)
      → lookup name d.register_map ≡ some reg
      → reg.access ≢ AccessType.read_write
      → write_register fl peer name value d ≡ (d, err (register_is_read_only name))
  unfolding write_register
  write_register_read_only peer name value d reg found access = rw found (ground arith)

  -- A register that was written is read back as the word that was written, at its scale.
  module _ (s : Slave) (d : Device F) (name : String) (reg : RegisterDefinition F)
      (found : lookup name d.register_map ≡ some reg) {socket : ℕ} (up : d.client.connected ≡ true)
      (conn : d.client.conn ≡ some socket) where
    -- On a connected device, a mapped uint16 holding register that may be written reads back,
    -- from a slave that follows the specification, as the word that was written to it, at its
    -- scale: the slave has obeyed the bytes that the write has sent.
    pub read_register-write_register :
        (w : ℕ)
        → reg.register_type ≡ RegisterType.holding_register
        → reg.access ≡ AccessType.read_write
        → reg.data_type ≡ DataType.uint16
        → let d' = (write_register fl (λ bytes. (serve s bytes).1) name (uint16_value w) d).0 in
          (read_register fl (λ bytes. (serve (obeyed s d'.client.sent) bytes).1) name d').1
          ≡ convert_register_value fl (w ∷ []) DataType.uint16 reg.scale_factor
    unfolding write_register write_single_register get_register_quantity send_frame
    read_register-write_register w holding access word =
        let unit_id = uint8_of d.profile.connection.unit_id in
        let request = write_single_register_request 0 unit_id reg.address w in
        let peer : Peer = λ bytes. (serve s bytes).1 in
        let (still_up, still_conn) = send_frame-keeps peer request d.client in
        let d' : Device F = record d { client = (send_frame peer request d.client).0 } in
        let wrote : (write_register fl peer name (uint16_value w) d).0 ≡ d' =
          simp (found, access) in
        let after : Slave = obeyed s d'.client.sent in
        let read =
          read_register-serve fl d' name reg found after (still_up ∙ up) (still_conn ∙ conn)
            (inl holding) in
        let served : after ≡ (serve s (write_bytes d.client unit_id reg.address w)).0 =
          rw up refl in
        let stored : after.holding reg.address ≡ w =
          ap (λ (t : Slave). t.holding reg.address)
            (served ∙ (write_single_register-serve s d.client up conn unit_id reg.address w).1)
          ∙ rw (==_refl reg.address) refl in
        rw wrote (read.0 ∙ simp (holding, word, stored))

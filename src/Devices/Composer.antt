-- ===== src/Devices/Composer.antt =====
-- internal/devices/composer.go: a device profile built from a coupler and its terminals. Reading a
-- module file is a parameter. `int` has 64 bits and all offsets end in a uint16, so that integers
-- without bounds give the same addresses.
pub mod Layout
use open_machine_core.Prelude.{
  ℕ, suc, String, List, [], ◌∷◌, ◌++◌, not, str_eq, if◌then◌else◌, ◌⊎◌, inl, inr, leb, map, length,
  Bool, true, false,
}
use open_machine_core.Prelude.Int.{ℤ, pos, negsuc, ◌+ℤ◌, wrap}
use open_machine_core.Prelude.Text.{text_append, decimal}
use open_machine_core.Types.{
  Float64, RegisterType, DataType, AccessType, RegisterDefinition, RegisterGroup,
  DeviceProfileDefinition, TerminalConfig, DeviceComposition, ModuleDefinition, ChannelInfo,
}

pub data ComposeError : Type 0 where
  coupler_not_loaded : String → ComposeError
  not_a_coupler : String → String → ComposeError
  terminal_not_loaded : ℕ → String → ComposeError

-- fmt's %d
unfoldable pub decimal_int : ℤ → String
unfolding decimal
decimal_int (pos n) = decimal n
decimal_int (negsuc n) = text_append "-" (decimal (suc n))

abbrev pub twice : ℤ → ℤ
twice n = n +ℤ n

abbrev pub group_unless_empty : String → ℕ → List String → List RegisterGroup
group_unless_empty name interval [] = []
group_unless_empty name interval (r ∷ rs) =
    record { name = name; poll_interval_ms = interval; registers = r ∷ rs } ∷ []

module _ (fl : Float64) where
  open fl use {F, one}

  abbrev pub register_of :
      ChannelInfo → String → RegisterType → ℕ → AccessType → RegisterDefinition F
  register_of channel prefix register_type address access = record {
    name = text_append prefix (text_append "." channel.name);
    address = address;
    register_type = register_type;
    data_type = DataType.bool;
    scale_factor = one;
    unit = "";
    access = access;
    description =
        text_append channel.description
          (text_append " (bit " (text_append (decimal_int channel.bit_offset) ")"));
  }

  unfoldable pub channel_to_register : ChannelInfo → String → ℤ → ℤ → RegisterDefinition F
  unfolding decimal_int ◌+ℤ◌
  channel_to_register channel prefix input_offset output_offset =
      let input = RegisterType.input_register in
      let holding = RegisterType.holding_register in
      if str_eq channel.channel_type "digital_input"
      then register_of channel prefix input (wrap 65536 input_offset) AccessType.read_only
      else if str_eq channel.channel_type "digital_output"
      then register_of channel prefix holding (wrap 65536 output_offset) AccessType.read_write
      else if str_eq channel.channel_type "analog_input"
      then register_of channel prefix input (wrap 65536 (input_offset +ℤ twice channel.id))
          AccessType.read_only
      else if str_eq channel.channel_type "analog_output"
      then register_of channel prefix holding (wrap 65536 (output_offset +ℤ twice channel.id))
          AccessType.read_write
      else register_of channel prefix input 0 AccessType.read_only

  unfoldable pub channels_to_registers :
      ModuleDefinition F → String → ℤ → ℤ → List (RegisterDefinition F)
  unfolding channel_to_register
  channels_to_registers mod_def prefix input_offset output_offset =
      map (λ channel. channel_to_register channel prefix input_offset output_offset)
        mod_def.channels

  -- the names that the loop appends to the slow and to the fast group
  unfoldable pub names_at : Bool → List (RegisterDefinition F) → List String
  names_at slow [] = []
  names_at slow (reg ∷ regs) =
      let rest = names_at slow regs in
      if slow
      then (if leb 4000 reg.address then reg.name ∷ rest else rest)
      else (if leb 4000 reg.address then rest else reg.name ∷ rest)

  unfoldable pub create_register_groups : List (RegisterDefinition F) → List RegisterGroup
  unfolding names_at
  create_register_groups registers =
      group_unless_empty "io_fast" 20 (names_at false registers)
      ++ group_unless_empty "diagnostics" 1000 (names_at true registers)

  module _ (load_module : String → String ⊎ ModuleDefinition F) where
    abbrev pub after_terminals :
        List (RegisterDefinition F)
        → ComposeError ⊎ List (RegisterDefinition F)
        → ComposeError ⊎ List (RegisterDefinition F)
    after_terminals regs (inl e) = inl e
    after_terminals regs (inr rest) = inr (regs ++ rest)

    abbrev pub terminal_offsets :
        (ℕ → ℤ → ℤ → ComposeError ⊎ List (RegisterDefinition F))
        → TerminalConfig
        → String ⊎ ModuleDefinition F
        → ℕ
        → ℤ
        → ℤ
        → ComposeError ⊎ List (RegisterDefinition F)
    terminal_offsets rest terminal (inl e) i input output = inl (terminal_not_loaded i e)
    terminal_offsets rest terminal (inr m) i input output =
        after_terminals (channels_to_registers m terminal.prefix input output) (
          rest (suc i) (input +ℤ m.process_image.input_bytes)
            (output +ℤ m.process_image.output_bytes))

    -- the loop over the terminals, from the i-th on
    unfoldable pub compose_terminals :
        List TerminalConfig → ℕ → ℤ → ℤ → ComposeError ⊎ List (RegisterDefinition F)
    unfolding channels_to_registers ◌+ℤ◌
    compose_terminals [] i input output = inr []
    compose_terminals (terminal ∷ terminals) i input output =
        terminal_offsets (λ j a b. compose_terminals terminals j a b) terminal
          (load_module terminal.module_path) i input output

    abbrev profile_of :
        DeviceComposition
        → ModuleDefinition F
        → ComposeError ⊎ List (RegisterDefinition F)
        → ComposeError ⊎ DeviceProfileDefinition F
    profile_of comp coupler (inl e) = inl e
    profile_of comp coupler (inr regs) =
        let registers = coupler.registers ++ regs in
        inr (record {
          device_profile = record {
            id = comp.instance_id;
            vendor = coupler.info.vendor;
            model = text_append coupler.info.model (
                text_append " + "
                  (text_append (decimal (length comp.composition.terminals)) " terminals"));
            version = "1.0";
            description = text_append "Composed device: " comp.instance_id;
          };
          connection = record {
            protocol = "modbus_tcp";
            port = comp.composition.coupler.port;
            unit_id = comp.composition.coupler.unit_id;
            poll_interval_ms = pos 50;
            timeout_ms = pos 1000;
          };
          registers = registers;
          groups = create_register_groups registers;
        })

    abbrev with_coupler :
        DeviceComposition → String ⊎ ModuleDefinition F → ComposeError ⊎ DeviceProfileDefinition F
    with_coupler comp (inl e) = inl (coupler_not_loaded e)
    with_coupler comp (inr coupler) =
        if not (str_eq coupler.info.module_type "coupler")
        then inl (not_a_coupler coupler.info.id coupler.info.module_type)
        else profile_of comp coupler
            (compose_terminals comp.composition.terminals 0 (pos 0) (pos 0))

    unfoldable pub compose_device : DeviceComposition → ComposeError ⊎ DeviceProfileDefinition F
    unfolding compose_terminals create_register_groups decimal
    compose_device comp = with_coupler comp (load_module comp.composition.coupler.module_path)

-- ===== src/Examples/Devices.antt =====
-- A device composed of a coupler and two terminals.
use open_machine_core.Prelude.{
  ℕ, ◌≡◌, refl, List, [], ◌∷◌, ◌++◌, String, str_eq, if◌then◌else◌, ◌⊎◌, inl, inr,
}
use open_machine_core.Prelude.Int.{pos}
use open_machine_core.Types.{ModuleDefinition, ChannelInfo, TerminalConfig, RegisterDefinition}
use open_machine_core.Devices.Composer.{compose_terminals, channel_to_register}
use open_machine_core.Devices.Composer.Layout.{offset_after, EachPlaced, compose_terminals-at}
use open_machine_core.Examples.{whole}

abbrev channel : ChannelInfo
channel = record {
  id = pos 1;
  name = "ai1";
  channel_type = "analog_input";
  bit_offset = pos 0;
  description = "";
}

abbrev analog : ModuleDefinition ℕ
analog = record {
  info = record {
    id = "ai";
    vendor = "acme";
    model = "ai2";
    module_type = "terminal";
    version = "1";
    description = "";
  };
  process_image = record { input_bytes = pos 4; output_bytes = pos 0 };
  channels = channel ∷ [];
  registers = [];
}

abbrev load_module : String → String ⊎ ModuleDefinition ℕ
load_module path = if str_eq path "ai" then inr analog else inl "module not found"

abbrev first_terminal : TerminalConfig
first_terminal = record { position = pos 1; module_path = "ai"; prefix = "t1" }

abbrev second_terminal : TerminalConfig
second_terminal = record first_terminal { position = pos 2; prefix = "t2" }

-- The channel of the first terminal lies at byte 2, that of the second at byte 6.
abbrev registers : List (RegisterDefinition ℕ)
registers =
    channel_to_register whole channel "t1" (pos 0) (pos 0)
    ∷ channel_to_register whole channel "t2" (pos 4) (pos 0)
    ∷ []

composed :
    compose_terminals whole load_module (first_terminal ∷ second_terminal ∷ []) 0 (pos 0) (pos 0)
    ≡ inr registers
unfolding compose_terminals
composed = refl

compose_terminals-at_example :
    (front own back : List (RegisterDefinition ℕ)) × (registers ≡ front ++ (own ++ back))
    × EachPlaced whole "t2"
        (offset_after whole load_module (λ p. p.input_bytes) (first_terminal ∷ []) (pos 0))
        (offset_after whole load_module (λ p. p.output_bytes) (first_terminal ∷ []) (pos 0))
        (channel ∷ [])
        own
compose_terminals-at_example =
    compose_terminals-at whole load_module (first_terminal ∷ []) [] second_terminal analog 0 (pos 0)
      (pos 0) registers refl composed

-- ===== src/Types.antt =====
-- internal/types: device profiles, compositions and modules. Go's float64 is not a type of antt: the
-- record `Float64` holds the operations that the program uses, and is a parameter of the modules
-- that compute with scale factors.
use open_machine_core.Prelude.{ℕ, String, Bool, List}
use open_machine_core.Prelude.Int.{ℤ}
use open_machine_core.Prelude.Maps.{StringMap}

pub record Float64 : Type 1 where
  pub F : Type 0
  pub one : F
  pub of_int : ℤ → F  -- float64(n)
  pub mul : F → F → F
  pub div : F → F → F
  pub is_zero : F → Bool  -- f == 0
  pub is_positive : F → Bool  -- f > 0
  pub to_uint16 : F → ℕ  -- uint16(f)

-- The string types of Go admit any text: `other` is a text that no constant has.
pub data RegisterType : Type 0 where
  coil discrete_input input_register holding_register : RegisterType
  other : String → RegisterType

pub data DataType : Type 0 where
  bool int16 uint16 int32 uint32 float32 float64 : DataType
  other : String → DataType

pub data AccessType : Type 0 where
  read_only read_write : AccessType
  other : String → AccessType

pub record RegisterDefinition (F : Type 0) : Type 0 where
  pub name : String
  pub address : ℕ  -- uint16
  pub register_type : RegisterType  -- `Type`
  pub data_type : DataType
  pub scale_factor : F
  pub unit : String
  pub access : AccessType
  pub description : String

pub record RegisterGroup : Type 0 where
  pub name : String
  pub poll_interval_ms : ℕ
  pub registers : List String

pub record DeviceProfileInfo : Type 0 where
  pub id : String
  pub vendor : String
  pub model : String
  pub version : String
  pub description : String

pub record ConnectionConfig : Type 0 where
  pub protocol : String
  pub port : ℤ
  pub unit_id : ℤ
  pub poll_interval_ms : ℤ
  pub timeout_ms : ℤ

pub record DeviceProfileDefinition (F : Type 0) : Type 0 where
  pub device_profile : DeviceProfileInfo
  pub connection : ConnectionConfig
  pub registers : List (RegisterDefinition F)
  pub groups : List RegisterGroup

pub record CouplerConfig : Type 0 where
  pub module_path : String  -- `Module`
  pub ip_address : String
  pub port : ℤ
  pub unit_id : ℤ

pub record TerminalConfig : Type 0 where
  pub position : ℤ
  pub module_path : String  -- `Module`
  pub prefix : String

pub record CompositionConfig : Type 0 where
  pub coupler : CouplerConfig
  pub terminals : List TerminalConfig

pub record DeviceComposition : Type 0 where
  pub instance_id : String
  pub composition : CompositionConfig
  pub io_mapping : StringMap String

pub record ModuleInfo : Type 0 where
  pub id : String
  pub vendor : String
  pub model : String
  pub module_type : String  -- `Type`
  pub version : String
  pub description : String

pub record ProcessImageInfo : Type 0 where
  pub input_bytes : ℤ
  pub output_bytes : ℤ

pub record ChannelInfo : Type 0 where
  pub id : ℤ
  pub name : String
  pub channel_type : String  -- `Type`
  pub bit_offset : ℤ
  pub description : String

pub record ModuleDefinition (F : Type 0) : Type 0 where
  pub info : ModuleInfo  -- `Module`
  pub process_image : ProcessImageInfo
  pub channels : List ChannelInfo
  pub registers : List (RegisterDefinition F)

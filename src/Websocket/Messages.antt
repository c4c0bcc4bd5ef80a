-- ===== src/Websocket/Messages.antt =====
-- internal/api/websocket/messages.go: the messages that are broadcast. Values of any type and metadata
-- are a parameter; the time stamp, the moment of the call, is an argument.
use open_machine_core.Prelude.{ℕ, String}

pub data MessageType : Type 0 where
  device_io device_connected device_error : MessageType
  machine_state : MessageType
  workflow_started workflow_step workflow_completed : MessageType
  workflow_failed workflow_cancelled : MessageType
  system_status : MessageType

unfoldable pub text_of : MessageType → String
text_of device_io = "device_io"
text_of device_connected = "device_connected"
text_of device_error = "device_error"
text_of machine_state = "machine_state"
text_of workflow_started = "workflow_started"
text_of workflow_step = "workflow_step"
text_of workflow_completed = "workflow_completed"
text_of workflow_failed = "workflow_failed"
text_of workflow_cancelled = "workflow_cancelled"
text_of system_status = "system_status"

pub record DeviceIoData (V : Type 0) : Type 0 where
  pub device_id : String
  pub address : String
  pub value : V

pub record MachineStateData : Type 0 where
  pub state : String
  pub previous : String

pub record WorkflowExecutionData : Type 0 where
  pub execution_id : String
  pub workflow_id : String
  pub step_name : String
  pub status : String
  pub message : String

pub data Payload (V : Type 0) : Type 0 where
  device_io_data : DeviceIoData V → Payload V
  machine_state_data : MachineStateData → Payload V
  workflow_execution_data : WorkflowExecutionData → Payload V

pub record Message (V : Type 0) : Type 0 where
  pub message_type : MessageType
  pub timestamp : ℕ
  pub payload : Payload V

module _ {V : Type 0} where
  unfoldable pub new_message : ℕ → MessageType → Payload V → Message V
  new_message now message_type payload = record {
    message_type = message_type;
    timestamp = now;
    payload = payload;
  }

  unfoldable pub new_device_io_message : ℕ → String → String → V → Message V
  unfolding new_message
  new_device_io_message now device_id address value =
      new_message now device_io
        (device_io_data (record { device_id = device_id; address = address; value = value }))

  unfoldable pub new_machine_state_message : ℕ → String → String → Message V
  unfolding new_message
  new_machine_state_message now new_state previous_state =
      new_message now machine_state
        (machine_state_data (record { state = new_state; previous = previous_state }))

  unfoldable pub new_workflow_message :
      ℕ → MessageType → String → String → String → String → String → Message V
  unfolding new_message
  new_workflow_message now message_type execution_id workflow_id step_name status message =
      new_message now message_type (
        workflow_execution_data (record {
          execution_id = execution_id;
          workflow_id = workflow_id;
          step_name = step_name;
          status = status;
          message = message;
        }))

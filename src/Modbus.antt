-- ===== src/Modbus.antt =====
-- internal/modbus: the Modbus TCP frame codec, client, device and poller.
pub mod Frame
pub mod Client
pub mod Device
pub mod Poller

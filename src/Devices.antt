-- ===== src/Devices.antt =====
-- internal/devices: profiles composed of modules, and the manager of devices and pollers.
pub mod Composer
pub mod Manager

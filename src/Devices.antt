-- ===== src/Devices.antt =====
-- fs_PintOS/devices: what of the drivers does not depend on the hardware.
pub mod Intq
mod Tests

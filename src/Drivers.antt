-- ===== src/Drivers.antt =====
-- drivers/: the facts that a driver reads from a device, and the Cisco IOS XE driver.
pub mod Facts
pub mod Cisco

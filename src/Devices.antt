-- ===== src/Devices.antt =====
-- services/devices.py and drivers/ssh_compatibility.py: which SSH modes are allowed, and connections
-- that the gate admits.
pub mod Policy
pub mod Admission
pub mod Callers
pub mod VeryOld
pub mod Tests

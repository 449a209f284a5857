-- ===== src/Drivers/Cisco.antt =====
-- drivers/cisco_iosxe.py, its pure part: rendering, validation and the parsers of device output.
pub mod Batch
pub mod Ports
pub mod Routes
pub mod Render
pub mod Validate
pub mod Parsers
pub mod Tables
pub mod Save
pub mod Tests

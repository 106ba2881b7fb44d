-- ===== src/Touch.antt =====
-- internal/touch: passive reading of USB FIDO HID reports.
pub mod Descriptor
pub mod Tracker
pub mod Monitor

-- ===== src/Spec.antt =====
-- What the socket programs promise of every run: the monitors.
pub mod Resources
pub mod Echo
pub mod Serving
pub mod Asking
pub mod Meter

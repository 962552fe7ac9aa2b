-- ===== src/Devices.antt =====
-- SenSa/devices and what it calls: the readings that come in, the gates that thin them out, the
-- detectors that watch them.
pub mod Gate
pub mod Neighbours
pub mod Ingest
pub mod Examples

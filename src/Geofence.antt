-- ===== src/Geofence.antt =====
-- SenSa/geofence: danger zones. `Zone` is the model, `Polygon` the test of a point in a polygon.
pub mod Zone
pub mod Polygon
pub mod Hull
pub mod Diffusion
pub mod Anomaly
pub mod Lifecycle
pub mod AutoTrigger
pub mod Examples

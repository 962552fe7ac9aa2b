-- ===== src/Alerts.antt =====
-- SenSa/alerts: the alarm domain. `Types` are its enumerations, `Store` is the Redis state, `World`
-- what an evaluation changes, `Fences` the geofence lookups,
-- `Worker` and `Sensor` the two evaluators.
pub mod Types
pub mod Common
pub mod Store
pub mod World
pub mod Fences
pub mod Classify
pub mod Worker
pub mod Sensor
pub mod Samples
pub mod Detectors
pub mod Notify

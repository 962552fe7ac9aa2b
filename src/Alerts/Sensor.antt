-- ===== src/Alerts/Sensor.antt =====
-- SenSa/alerts/services/sensor_evaluator.py. `Message` writes the texts and names the alarms,
-- `Evaluate` is `evaluate_sensor`.
pub mod Message
pub mod Evaluate
pub mod Spec
pub mod Refinement
pub mod Escalation
pub mod Outage
pub mod Windows
pub mod Examples

-- ===== src/Alerts/Worker.antt =====
-- SenSa/alerts/services/worker_evaluator.py. `State` classifies and maps transitions, `Message`
-- writes the texts, `Evaluate` is `evaluate_worker`.
pub mod State
pub mod Message
pub mod Evaluate
pub mod Spec
pub mod Refinement
pub mod Hysteresis
pub mod Slow
pub mod Outage
pub mod Effects
pub mod Invariant
pub mod Classification
pub mod Examples

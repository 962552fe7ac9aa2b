-- ===== src/Dashboard.antt =====
-- SenSa/dashboard/views.py: the check of workers and sensors, and the forecast of one value.
pub mod Check
pub mod Forecast
pub mod Examples

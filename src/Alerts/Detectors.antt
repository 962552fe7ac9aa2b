-- ===== src/Alerts/Detectors.antt =====
-- SenSa/alerts/services: the two detectors that watch a sensor's values. statsmodels, pmdarima,
-- scikit-learn and numpy are parameters.
pub mod Arima
pub mod Trend
pub mod Examples

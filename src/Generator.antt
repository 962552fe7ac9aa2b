-- ===== src/Generator.antt =====
-- fastapi_generator: the generator of sensor data. `Scenario` is the state of the scenario toggles
-- and their phases.
pub mod Scenario
pub mod Readings
pub mod Walk
pub mod Worst

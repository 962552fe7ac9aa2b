-- ===== src/Geofence/Lifecycle.antt =====
-- SenSa/geofence/zone_lifecycle.py: the end of dynamic zones and the rise of their tier, with the
-- events of SenSa/geofence/events.py. The tables are lists; an event's row is always written.
-- What the pass asks of its surroundings is a parameter: the hull of polygon_utils.py, the
-- neighbours of neighbor_graph.py and the residuals of zone_anomaly.py.
pub mod Rows
pub mod Expire
pub mod Check
pub mod Expiry
pub mod Tiers
pub mod Create
pub mod Spread
pub mod Grow
pub mod Tick
pub mod Bounds
pub mod Growth
pub mod Examples
pub mod TickExamples

-- ===== src/Models.antt =====
-- orchestrator/models.py: the enumerations and records that the repository stores. A datetime is
-- its number of microseconds; every one is aware, so the conversions of naive ones change nothing.
pub mod Value
pub mod App
pub mod Build
pub mod Resources
pub mod RouteCheck

-- ===== src/Repository.antt =====
-- orchestrator/repository.py: `InMemoryRepository`, one locked method at a time. The lock makes
-- each method one step, so a method is a function of the state that it finds.
pub mod State
pub mod Builds
pub mod Resources
pub mod Ports
pub mod RouteChecks
pub mod Roles

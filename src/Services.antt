-- ===== src/Services.antt =====
-- orchestrator/services.py
pub mod Build
pub mod Failure
pub mod Queue

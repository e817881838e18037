-- ===== src/Compose.antt =====
-- The conversions of a Compose document to the settings of Docker services, and its validation.
pub mod Checked
pub mod Fields
pub mod Ports
pub mod Environment
pub mod Mounts
pub mod Health
pub mod Deploy
pub mod Resources
pub mod Features
pub mod Document
pub mod Service
pub mod Accepted

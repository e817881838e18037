-- ===== src/Deployment.antt =====
-- orchestrator/docker_services.py: what `DockerSwarmAdapter` computes before it calls Docker.
pub mod Order
pub mod Ports

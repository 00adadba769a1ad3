-- ===== src/Deployment.antt =====
-- app/services/deployment_service.py: the deployment control plane.
pub mod Authority
pub mod GitHub
pub mod Events
pub mod Intents
pub mod Evidence
pub mod Lock
pub mod Artifacts
pub mod Staging
pub mod Bindings
pub mod Start
pub mod System

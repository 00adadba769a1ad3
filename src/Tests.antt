-- ===== src/Tests.antt =====
-- The laws at concrete inputs.
mod Data
mod Policy
mod Approval
mod Deployment
mod System
mod Supervised
mod Supervisor
mod Artifacts
mod Services
mod GitHub

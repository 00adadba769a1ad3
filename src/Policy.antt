-- ===== src/Policy.antt =====
-- app/services/deployment_policy.py: the pure gates of a deployment.
pub mod Artifact
pub mod Health
pub mod Migration
pub mod Services
pub mod Resource
pub mod Transition

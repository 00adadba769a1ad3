-- ===== src/Supervisor.antt =====
-- The production supervisor: app/services/production_supervisor.py, and the collector of
-- app/services/resource_authority.py that it asks.
pub mod Attempt
pub mod Resources
pub mod Window
pub mod Journal
pub mod Run
pub mod Authority
pub mod Evidence
pub mod Fingerprint
pub mod Host
pub mod Terminal
pub mod Execute
pub mod Takeover
pub mod Compose
pub mod Cycle
pub mod Polling
pub mod Complete
pub mod Deployed
pub mod Logic
pub mod Walk
pub mod Anchored
pub mod Replay
pub mod Quiet
pub mod Calls
pub mod Submission
pub mod Once
pub mod Lines
pub mod Verdicts
pub mod Healthy
pub mod Quiescence
pub mod Authorized

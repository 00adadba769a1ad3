-- ===== src/Deployment/System.antt =====
-- app/services/approval_service.py and app/services/deployment_service.py together: any sequence of
-- their operations.
pub mod Appends
pub mod Keeps
pub mod Outcomes
pub mod Steps

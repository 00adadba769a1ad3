-- ===== src/Approval.antt =====
-- app/services/approval_service.py: approval requests, commands and decisions.
pub mod Patterns
pub mod Fields
pub mod Requests
pub mod Decisions
pub mod Command
pub mod Actions

-- ===== src/Feishu.antt =====
-- The Feishu side of the control plane.
pub mod Authorization
pub mod Delivery

-- ===== src/Cabinet.antt =====
-- backend/app/cabinet: what the ERP reads from a cabinet, and what it makes of it.
pub mod BerthStatus
pub mod BerthView
pub mod SessionPayload
pub mod Outcomes
pub mod Contract
pub mod Client

-- ===== src/Examples.antt =====
-- Concrete runs of the modelled code, with tests on them.
pub mod AuditRuns
pub mod StoreRuns
pub mod ResultRuns
pub mod ConfigRuns
pub mod ControlRuns
pub mod WorkspaceRuns
pub mod PreflightRuns
pub mod SupervisorRuns
pub mod RpcRuns
pub mod ForegroundRuns

-- ===== src/Approvals.antt =====
-- The human approval of a plan: the store of plans and their approvals, the service that decides
-- them, and the routing of an unanswered approval to a backup.
pub mod Store
pub mod Service
pub mod Execution
pub mod Escalation
pub mod Routing
pub mod PendingRequest
mod Tests

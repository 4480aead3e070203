-- ===== src/Workflow.antt =====
-- The durable workflows: declarations, the tool catalogue, the store of leased rows, the staging of
-- an approved plan and the executor that claims, advances and compensates.
pub mod Sql
pub mod Tools
pub mod Declarations
pub mod BoundedPlan
pub mod Staging
pub mod PlanHash
pub mod Executor
pub mod Store
pub mod Samples
mod Tests

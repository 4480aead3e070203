-- ===== src/Workflow/Store.antt =====
-- src/enterprise_agent/adapters/workflow_state.py: every transaction on the rows of one workflow.
-- `ok none` is the `None` that a lost compare-and-swap returns, and `err` the RuntimeError that
-- rolls the transaction back. All statements name one workflow id: the database is a list of
-- snapshots, and the rows of the steps of each stand in the order of their index.
pub mod Statements
pub mod Request
pub mod Database
pub mod Isolation
pub mod Terminal
pub mod Unraised
pub mod Grant
pub mod Lease
pub mod Progress
pub mod Outcomes
pub mod Consistency

-- ===== src/Workflow/Executor.antt =====
-- ScenarioAWorkflowExecutor of src/enterprise_agent/application/workflow_executor.py: its ports, its
-- exceptions and the state that its methods change. The methods and their checks are the children.
pub mod Machine
pub mod Checks
pub mod Cursor
pub mod Inputs
pub mod Claim
pub mod Authorization
pub mod Granting
pub mod Tools
pub mod Execution
pub mod Compensation

-- ===== src/Lib.antt =====
-- Harmony takehome: the durable workflows of an enterprise agent.
--
-- The program proposes a plan for an item that needs attention, has it approved by a person, and
-- then runs it as a durable workflow: a row for the workflow and one row for each of its steps.
-- Workers lease a workflow, confirm its read-only guards, record the start of a tool under an
-- idempotency key, call the tool, and record the result. A tool that fails for good makes the
-- workflow fail, and the effects of its completed tools are undone in reverse.
--
-- The parts and the files that model them:
--   Domain                src/enterprise_agent/domain/contracts.py and domain/attention.py
--   Workflow/Tools        src/enterprise_agent/application/tools.py: the catalogue, `authorize_tool`
--                         and the two idempotency keys
--   Workflow/Declarations src/enterprise_agent/application/workflows.py
--   Workflow/BoundedPlan  src/enterprise_agent/application/bounded_tool_plan.py:
--                         `bounded_tool_calls_from_plan`
--   Workflow/PlanHash     src/enterprise_agent/application/approvals.py: `recompute_plan_hash`
--   Workflow/Staging      src/enterprise_agent/application/workflow_state.py: `stage` and
--                         `stage_bounded_tool_plan`
--   Workflow/Store        src/enterprise_agent/adapters/workflow_state.py. Statements has one
--                         definition for each SQL statement, Request one for each method, Database
--                         the rows of all workflows
--   Workflow/Executor     src/enterprise_agent/application/workflow_executor.py. Checks has the
--                         validation of the stored rows, Cursor that of the next step and of the
--                         approval, Inputs the typed input of a tool, Claim
--                         `claim` and `advance_next_guard`, Tools `begin_next_tool`, Execution
--                         `execute_started_tool`, Compensation `compensate_failed_workflow`
--   Scheduler             src/enterprise_agent/adapters/scheduler.py: the leased table of tasks
--   Audit                 src/enterprise_agent/adapters/audit.py (Sanitizer, Ledger) and
--                         application/audit_trail.py
--   Domain/Triggers       the triggers of src/enterprise_agent/domain/attention.py
--   Attention             src/enterprise_agent/adapters/attention.py: the table of attention items
--   ArrivalCheck          src/enterprise_agent/application/arrival_check.py
--   Planning              src/enterprise_agent/application: Context the facts of context.py and the
--                         recommendations of planning.py, Candidates candidates.py, ScenarioAGate
--                         gate.py, BoundedGate the gate and the builder of bounded_tool_plan.py
--   Approvals             Store is src/enterprise_agent/adapters/plan_approvals.py, Service the
--                         decisions of application/approvals.py, PendingRequest its
--                         `request_pending`, Escalation and Routing
--                         application/approval_routing.py, and Execution the executor over this
--                         store
--   Prelude, Json, Text   what the parts share: tests, lists, exceptions, JSON values, texts
--   Workflow/Samples and the Tests of each part run the parts on concrete values.
--
-- How the state is modelled. A database is a list of snapshots, each the row of a workflow with its
-- steps in the order of their index. A method of the store is one transaction on one snapshot, that
-- of the identifier by which all its statements select: nothing for a lost compare-and-swap, and an
-- error for the exception that rolls it back, be it the store's own RuntimeError or a breach of the
-- unique constraint on the idempotency keys of all steps. Concurrent workers are a sequence of
-- requests, since every transaction is atomic; a claim of due tasks, which skips the rows that
-- concurrent transactions hold, is given these. A method of the executor is an action on the
-- database, the world that the tools act on (any type `E`) and the audit trail; an exception keeps
-- what was committed before it. Its audit ledger is a port that may refuse an event. The tables of
-- approvals, tasks, attention items and audit events are lists of rows, and their methods are
-- actions on them. The tool adapter, the identities, the ERP and the calendar, the validation of tool inputs and the parts
-- of Python's standard library, decimals included, are parameters. An instant is a number of
-- microseconds in the one timezone of the program. Every loop is a recursion on a list, so no fuel
-- is needed.
--
-- Not modelled: the text of SQL errors, connection handling, foreign keys and column types; floating
-- point numbers in JSON, and equalities between JSON values of different types, as of 1 and True;
-- the refusal of a task payload that JSON cannot write; the ledger's checks of the events that the
-- approval services and the arrival check append; timestamps without a timezone; and the program's other parts (the assembly
-- of the context, tool adapters, detectors, language-model clients, command line and web pages).
pub mod Approvals
pub mod ArrivalCheck
pub mod Attention
pub mod Audit
pub mod Domain
pub mod Json
pub mod Planning
pub mod Prelude
pub mod Scheduler
pub mod Text
pub mod Workflow

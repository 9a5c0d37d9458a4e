-- ===== src/Workflow.antt =====
-- The workflow of a project: mas/workflow_templates.py, the gates and the invalidation of
-- mas/tools/scoring.py and mas/state.py, the runners of mas/orchestrator.py.
pub mod Templates
pub mod Collect
pub mod State
pub mod Invalidation
pub mod Gate
pub mod Reply
pub mod Phase
pub mod Sequence
pub mod Graph
pub mod Closure
pub mod Frame
pub mod Clear
pub mod Cone
pub mod Coherence
pub mod Listed
pub mod Fired
pub mod Walks
pub mod Routes
pub mod Completion
pub mod Order
pub mod Runner
pub mod Front
pub mod Blocked
pub mod Entered
pub mod Gauntlet
mod Examples

-- ===== src/Lib.antt =====
-- The decision engine's deterministic core: what stands between the language model and the
-- project's state.
--
-- The program (mas/) runs a project through phases, each a call of a language model. This library
-- models the parts that decide without the model.
--
-- Policy (mas/policy.py, the operator's requests of mas/api.py, the metering in `run_phase_node` of
-- mas/orchestrator.py). Policy/Types has the records and the policy fields of `ProjectState`;
-- Policy/Budget `check_budget`, the metering and the dict adapters; Policy/Breaker the circuit breaker;
-- Policy/Gate `classify_action`, the kill switch, `policy_gate` and the audit log; Policy/Operator the
-- requests `kill_project`, `set_risk_classification`, `grant_approval`, `reset_breakers`,
-- `set_budget_caps`; Policy/PhaseRun the gate and the metering of a phase. Policy/Steps is the step
-- relation over these. Floats are an argument with the operations that the code uses (Prelude/Float);
-- clock readings are arguments.
--
-- Runs (mas/runtime/run_state.py). Runs/Record has the run and its status; Runs/Memory the run state of
-- one process; Runs/Table the statements on the table `workflow_runs`, as functions on the list of its
-- rows; Runs/Acquire `create_workflow_run`, the recovery and the readiness report. An instant is a
-- number of microseconds; new UUIDs are arguments.
--
-- Jobs (mas/runtime/work_queue.py). Jobs/Queue has the job and the statements on the table
-- `workflow_jobs`: `enqueue_workflow_job`, `claim_next_workflow_job`, `mark_job_succeeded`,
-- `mark_job_failed` and the posture. Claiming reads the runs of Runs/Table, as the statement joins
-- them, and no row is locked by another transaction. Jobs/Earliest and Jobs/Ready say which row a claim
-- may take, Jobs/Claims, Jobs/Writes and Jobs/Bounds are its theorems.
--
-- EvidenceUse (mas/research_evidence/automation_roi_use_policy.py). EvidenceUse/Policy has the
-- evaluation of a set of bindings; the fields of a binding that it reads are those of
-- mas/research_evidence/binding_models.py. The JSON of the parameters and its fingerprint are
-- arguments. EvidenceUse/Verdict and EvidenceUse/Satisfaction are its theorems.
--
-- Roi (mas/knowledge/automation_roi/calculator.py). Roi/Inputs has an input, its compatibility with the
-- database and the digests, Roi/Calculator `compute_automation_roi` and `canonical_request_digest`.
-- Decimals are an argument with the operations that the code uses (Prelude/Decimal), SHA-256 is an
-- argument on texts. An exception is a constructor of the result. Roi/Shape, Roi/Status, Roi/Results,
-- Roi/Digest and Roi/Request are its theorems.
--
-- Knowledge (mas/knowledge/freshness.py, mas/knowledge/registry.py). Knowledge/Freshness has the status
-- of an item and of a source and the refresh, Knowledge/Health the report. An instant has a time zone
-- or none, and `none` is the TypeError of comparing one with the other; reading a date and stripping
-- blanks are arguments. Knowledge/Ageing, Knowledge/Refresh and Knowledge/Counts are its theorems.
--
-- Workflow (mas/workflow_templates.py, mas/tools/scoring.py, mas/state.py, mas/config.py and the runners
-- of mas/orchestrator.py). Workflow/Templates has the sequences of phases, Workflow/Collect the search
-- of the phases that a changed one invalidates, Workflow/State the statuses and the outputs,
-- Workflow/Invalidation `invalidate_downstream`, the cone of Strategy and the prerequisites,
-- Workflow/Gate `check_gate`. Workflow/Reply and Workflow/Phase are `run_phase_node` over what the
-- model's replies come to, Workflow/Sequence `run_workflow_sequence`, Workflow/Graph the routing of the
-- graph. `collect` takes fuel, the lengths of the queue and of the lists of all phases not seen. An
-- output is kept as what the code tests of it. Workflow/Frame, Clear, Cone, Runner, Entered, Listed and
-- Fired say what a run leaves alone, Workflow/Coherence, Completion, Blocked, Closure, Routes, Walks,
-- Gauntlet and Front are the theorems.
--
-- Events (mas/decision_events.py). Events/Event has an event and its hash, Events/Log `append`,
-- `list_events` and `verify_chain` over the two dicts of a process and the rows of the table,
-- Events/Replay `state_at`. SHA-256 and JSON are arguments on texts. Events/Chain, Events/Tamper and
-- Events/History are its theorems.
--
-- Gateway (mas/runtime/provider_gateway.py, mas/runtime/cache.py, mas/config.py and the circuit breaker
-- of mas/llm_client.py). Gateway/Types has the records, Gateway/Errors the categories of errors,
-- Gateway/Breaker and Gateway/Cache the two stores, Gateway/Routing the tables of the models,
-- Gateway/Candidates and Gateway/Selection `select_model_candidates`, Gateway/Attempt `_execute`, the hook
-- and the ledger, Gateway/Progress and Gateway/Calls
-- `_call_with_fallbacks`, Gateway/Serve `call`. What the executors and the
-- hook return and what the clock reads are functions of the number of the attempt (`World`). Stripping
-- and lowering a text are arguments, and so are SHA-256, JSON and the redacted detail of an exception.
-- The telemetry and the waits between attempts are not modelled, nor is a call that is cancelled.
-- Gateway/Account and Endings, Bounds, Headline and Reports, Retries, Failures, Chosen, Served and Recall
-- are its theorems.
--
-- Generations (mas/state_coherence.py, mas/sql/v64_decision_state_coherence_foundation.sql,
-- `_accept_completed_analysis` of mas/api.py). Generations/Tables has the rows of an analysis' generations
-- and of the current ones with their triggers, Generations/Lifecycle the operations, each a transaction
-- that commits or raises. A row has the state itself in place of its JSON; digests, UUIDs and the clock
-- are arguments. Generations/Steps shows every operation as a sequence of three kinds of writes;
-- Generations/Rows, Coherent, Promotion, Swap and Acceptance are the theorems.
--
-- The reply of the model, the database driver, the prompts and the web layer are not modelled: what
-- they return is an argument. Every other recursion is structural.
pub mod Prelude
pub mod Policy
pub mod Runs
pub mod Jobs
pub mod EvidenceUse
pub mod Roi
pub mod Knowledge
pub mod Events
pub mod Workflow
pub mod Gateway
pub mod Generations

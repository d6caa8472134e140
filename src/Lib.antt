-- ===== src/Lib.antt =====
-- The routing core of a model router: what decides which model may run a task, at what effort and
-- cost, whether one more bounded action may be dispatched, and what to do after a failure.
--
-- The parts and their files. `route` (src/model_router/router.py) takes a request, its
-- classification, a snapshot of the environment and a pinned bundle of policy. It asks the policy
-- components for limits, candidates and validation, assesses each candidate, and returns a decision
-- or a rejection. Execution admits and funds each action of the decision, and recovery proposes the
-- next one after a failure. The health service turns observations into the evidence that the
-- environment carries. Two durable ledgers bound what tasks and experiments spend.
-- - Prelude and its children: tests, lists, dictionaries as association lists in insertion order, and
--   functions that may raise (an error is its class and the constant part of its message). No code of
--   the repository.
-- - Contracts: src/model_router/core/contracts.py and the records of
--   src/model_router/core/configuration.py.
-- - Configuration: the validators of the same configuration.py on those records.
-- - Policy/Capabilities, Costs, Budgets, Modifiers, Validation: the file of that name under
--   src/model_router/policy; Policy/Rules is the second half of its modifiers.py.
-- - Router: `route`, in the stages of its text. Assess is the loop over the candidates, Choose the
--   preference among the feasible ones, Decide the rejections and the decision, Route the frame.
-- - Execution: Ports is src/model_router/core/execution_contracts.py, Admission `check_admission` and
--   Funds `MemoryBudgetAuthority`, both of src/model_router/execution/admission.py, Lifecycle the two
--   functions of src/model_router/execution/lifecycle.py, and Accounting `provider_cost` of
--   src/model_router/execution/accounting.py, with the usage of
--   src/model_router/core/provider_contracts.py. Each operation of the authority takes the state and
--   returns the next one; its lock makes it one step.
-- - Escalation: Recovery is src/model_router/escalation/recovery.py, its helpers in Recovery/Choices.
-- - Health: src/model_router/health/service.py. Circuits is `_Circuit` and what an observation or a
--   probe does to it, Service the rest of the service's state and calls, Readiness the three checks of
--   readiness, Projection `apply`, Probes `run_probes` and `seed`. A call takes the service and
--   returns its answer with the service after it, which a raising `observe` may have changed too.
-- - Storage/Budget: `SQLBudgetAuthority` of src/model_router/storage/budget.py, whose three tables are
--   association lists by primary key. An operation is one transaction.
-- - Calibration/Journal: `CalibrationAllocation` of src/model_router/calibration/budget.py. The file is
--   the list of the states that its lines hold.
-- - Samples and Examples: one funded task, and the theorems at concrete inputs.
--
-- Numbers. A decimal amount is the number of units of 1 / `scale` that it counts; `scale` is a
-- parameter, large enough for the configured prices and their quotients by the token unit to be
-- whole, so that sums and comparisons are exact, as they are in the source. Times are natural numbers
-- of one unit.
--
-- Fuel. `visit` of Policy/Validation recurses through the profiles with fuel 4, which is enough for
-- four levels each of which builds on lower ones. `bit_length` of Recovery/Choices halves its
-- argument with the argument itself as fuel. All other loops are structural.
--
-- Parameters. The hash that names a health snapshot, what the adapters' health probes answer and when,
-- and the check of a calibration identifier are arguments of the definitions that use them.
--
-- Types. A value that the source checks to be of a type or of a vocabulary before use (a flag, a state,
-- a failure, a count) has that type here, and the errors of those checks are left out.
--
-- Left out: digests, identifiers and the free-form rationale details, which no branch reads; the
-- loading of YAML, and the checks of the configuration on the catalog, the versions, the tier bounds
-- and the fields that no modelled code reads; failures of the database and of the file system; the
-- orchestrator, the task repository, telemetry, the HTTP service, the classifier, shadow runs and the
-- calibration's runs and grading, which surround these decisions with I/O or wait to be modelled.
mod Prelude
pub mod Contracts
mod Samples
mod Examples
pub mod Policy
pub mod Execution
pub mod Router
pub mod Escalation
pub mod Health
pub mod Storage
pub mod Calibration
pub mod Configuration

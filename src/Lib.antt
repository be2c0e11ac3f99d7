-- ===== src/Lib.antt =====
-- Verification of the control plane's core, in Python under ai_workflow/.
--
-- The program routes a coding task to a lane and a risk, gathers evidence for it, and lets a model
-- propose actions. Four parts decide what may happen, one chooses the context, and one records what
-- happened; they are modelled here.
--
-- * Orchestration (ai_workflow/orchestration.py) makes of a task's lane, risk, retrieval
--   diagnostics, changed files and configuration the contract: the slots, passes, depth and graph
--   calls that the task may use. `Orchestration` models it, with its budget and its score;
--   `Orchestration.Bounds` and `Orchestration.Growth` hold the proofs.
-- * The capability gate (ai_workflow/capability_gate.py) makes a policy of the contract and the
--   evidence, and decides on each action that the model proposes. `Capability.Types` has its
--   records, `Capability.Canonical` `_canonical_value`, `Capability.Paths` the tests on paths,
--   `Capability.Parameters` the walk over the parameters, `Capability.Gate` the digest and
--   `authorize_model_action`, `Capability.Policy` `build_model_capability_policy`.
--   `Capability.Description` says what the gate allows without its order of tests; `Encodable`,
--   `Scope`, `Walks`, `Walked`, `Verdicts` and `Permitted` lead to it, and `Binding` is about the
--   digest and the evidence.
-- * The deployment of a learned retrieval policy (ai_workflow/deployment_state.py,
--   ai_workflow/policy_manifest.py and ai_workflow/deployment_runtime.py) is a signed state that
--   moves from stage to stage. `Deployment.Types` has its records, `Deployment.Manifest`
--   `verify_policy_manifest`, `Deployment.Creation` `create_policy_manifest` and
--   `create_deployment_state`, `Deployment.Verify` `_sign_payload`, `_verify_signature` and
--   `verify_deployment_state`, `Deployment.Transition` `transition_deployment_state`; `Accepted`,
--   `Invariant`, `Stages`, `Promotion` and `Rollback` are about it, `ContextFields`, `Policy`,
--   `ManifestCreated`, `Created` and `Lifecycle` about what is created. `Deployment.Lock` has
--   `_state_lock` and `Deployment.Files` the operations on the state file and its audit events;
--   `Sharing`, `Conflict` and `Failures` are about them. `Deployment.Features` has
--   ai_workflow/contextual_features.py, `Deployment.Assignment` and `Deployment.Runtime`
--   `resolve_runtime_deployment`, which picks an arm for a task and rolls the deployment back where
--   the guardrails ask for it; `Assigned`, `Serving` and `Automatic` are about it.
-- * The live guardrails (ai_workflow/deployment_guardrails.py) judge a deployment by the recorded
--   outcomes of its tasks; the transitions and the automatic rollback read their report.
--   `Guardrails` has the records and the arithmetic, `Guardrails.Scores` `_sequential_scores`, the
--   confidence sequence of ai_workflow/shadow_policy.py and the clusters of
--   ai_workflow/deployment_statistics.py, `Guardrails.Monitor` what is counted of the rows,
--   `Guardrails.Gate` the gate and `Guardrails.Evaluate` `evaluate_live_guardrails`; `Counted` is
--   about the counted scores and `Grouped` about the contexts and the clusters, `Safe`, `Evidence`
--   and `Decisions` about what a report decides.
-- * The selection of the context (ai_workflow/context_selection.py) fills a budget of characters
--   and tokens with the most useful of the candidates. `Selection` has what is selected and what
--   fits, `Selection.Scores` the gain, the orders and the heap, `Selection.Modes` `select_context`;
--   `Budget` is about what is used, `Heap` about the end of the loop over the heap, `Result` about
--   both, and `Keys` and `Distinct` about the keys of what is selected.
-- * The run journal (ai_workflow/run_journal.py) chains the events of a run by their hashes.
--   `RunJournal` has `chain_replay_events` and the loop over the events in `verify_replay_journal`,
--   `RunJournal.Journal` the whole of it, `RunJournal.Build` `build_replay_journal` and
--   `RunJournal.Replay` `verify_run_journal` and `replay_run_journal`; `Chain` and `Binding` are
--   about the chain, `Built` and `Verified` about built journals, `Sound`, `Replay.Released` and
--   `Replay.Agreed` about verified ones.
--
-- `Models` has the data of ai_workflow/models.py that several parts read, `Value` the JSON-like
-- values of an action's parameters, `Common` the helpers: Boolean tests, lists, Python's text
-- methods and integers.
--
-- How the state corresponds. A Python dictionary with known keys is a record; an entry that the
-- code reads with `.get` and tests by `isinstance` is an `Option` or a type with a case for the
-- other types. A raised exception is a result with an error. The node counter that
-- `_canonical_value` and `walk` share through a list of one element is passed along as an argument
-- and returned.
--
-- The directory of the state file is a record `Disk`, passed from step to step; what the operating
-- system answers during an operation is a record `World`. A lock that an operation finds belongs to
-- another process between its steps.
--
-- Bounds. All recursion is structural, on a value, a list or a text, but for the loop over the
-- selection's heap, which has a fuel of about the square of the number of candidates: each epoch
-- pushes an entry back at most once, and each new epoch has one entry less. A recursion limit of
-- the interpreter is not reached, since the code's own depth limit is 6. Integers are unbounded, as
-- in Python. A traffic fraction is a number of units of 10^-15, in which all constants of the code
-- and its tolerance are whole; the rounding of floating point numbers is not modelled.
--
-- Parameters. SHA-256, HMAC-SHA256 over canonical JSON texts, the JSON text itself, rounding, the
-- random draw, and the case folding of characters outside ASCII are arguments; so are the
-- arithmetic of floating point numbers, the bootstrap over clusters, and how the entries of a
-- state's `guardrails` are read. `Deployment.Runtime` takes the report of the guardrails as an
-- argument. Nothing is assumed of them except where a theorem says so.
--
-- Not modelled: the renderings as dictionaries, the clock, failing disks but for the one that takes
-- no audit event, the budgets and the baseline distribution of a new state, the files of the run
-- journal, and the parts of the program that work on files, processes, databases and floating point
-- statistics: retrieval, the provider runner and its sandbox, the workspace, the stores, the
-- benchmarks and the command line.
pub mod Capability
pub mod Common
pub mod Deployment
pub mod Guardrails
pub mod Models
pub mod Orchestration
pub mod RunJournal
pub mod Selection
pub mod Value

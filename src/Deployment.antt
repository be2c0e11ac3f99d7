-- ===== src/Deployment.antt =====
-- ai_workflow/deployment_state.py, policy_manifest.py, deployment_guardrails.py and
-- deployment_runtime.py: the staged rollout of a signed retrieval policy.
pub mod Types
pub mod Manifest
pub mod ContextFields
pub mod Policy
pub mod Creation
pub mod ManifestCreated
pub mod Created
pub mod Lifecycle
mod CreationTests
pub mod Verify
pub mod Transition
pub mod Accepted
pub mod Invariant
pub mod Stages
pub mod Promotion
pub mod Lock
pub mod Files
pub mod Sharing
pub mod Conflict
pub mod Failures
pub mod Features
pub mod Rollback
pub mod Assignment
pub mod Runtime
pub mod Assigned
pub mod Serving
pub mod Automatic
pub mod Samples
mod Tests
mod FileTests

-- ===== src/Capability.antt =====
-- ai_workflow/capability_gate.py: the deterministic gate for actions that a model proposes.
pub mod Types
pub mod Canonical
pub mod Encodable
pub mod Paths
pub mod Parameters
pub mod Scope
pub mod Walks
pub mod Walked
pub mod Gate
pub mod Description
pub mod Verdicts
pub mod Permitted
pub mod Policy
pub mod Binding
mod Tests

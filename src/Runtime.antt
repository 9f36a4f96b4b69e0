-- ===== src/Runtime.antt =====
-- The Browser Runtime process (packages/browser-runtime/browserruntime).
pub mod Scope
pub mod Server
pub mod Admission
pub mod Selector
pub mod Observer
pub mod Lease
pub mod Connection
pub mod Revocations
pub mod ProfileState
pub mod Viewer

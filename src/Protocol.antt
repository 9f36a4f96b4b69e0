-- ===== src/Protocol.antt =====
-- The Browser wire protocol (packages/browser-runtime/browserprotocol).
pub mod Types
pub mod Identifiers
pub mod Failure
pub mod Origins
pub mod Action
pub mod Backend
pub mod OpsObserver
pub mod Request
pub mod Observed
pub mod Viewer
pub mod Health

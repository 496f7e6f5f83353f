-- ===== src/Protocol.antt =====
-- pkg/protocol: the wire contract of the hub and the agents.
mod Words
mod AppDef
mod Messages
mod Tests
pub mod Validate
pub use AppDef.*
pub use Messages.*
unfoldable pub use Words.{valid_verb, status_eq, desired_eq, is_approved}
pub use Words.{Verb, AppStatus, DesiredState, Approval, AppKind, desired_eq-eq, is_approved-eq}

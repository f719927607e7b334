-- ===== src/Protocol.antt =====
-- crates/framewalk-mi-protocol: the sans-IO connection and the registries that it feeds.
pub mod View
pub mod State
pub mod Token
pub mod Pending
pub mod Event
pub mod Dispatch
pub mod Connection
pub mod MiTypes

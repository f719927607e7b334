-- ===== src/Protocol/State.antt =====
-- crates/framewalk-mi-protocol/src/state: the registries.
pub mod Keyed
pub mod Threads
pub mod Frames
pub mod Breakpoints
pub mod VarObjs
pub mod Features
pub mod Target

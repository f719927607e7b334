-- ===== src/Transport.antt =====
-- crates/framewalk-mi-transport: the connection behind its locks, and what waits on it. The
-- channels of tokio are not modelled: a function returns, in order, what it does with them.
pub mod Journal
pub mod Shared
pub mod Pump
pub mod Handle
pub mod World
pub mod Wait
pub mod Subprocess

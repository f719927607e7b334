-- ===== src/Codec.antt =====
-- crates/framewalk-mi-codec: MI lines into records, and commands into lines.
pub mod Ast
mod Examples
pub mod Error
pub mod Cursor
pub mod Utf8
pub mod CString
pub mod Value
pub mod Record
pub mod Command
pub mod Encode

-- ===== src/Wire.antt =====
-- crates/framewalk-mi-wire: bytes from GDB into frames.
pub mod Framer

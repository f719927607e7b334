-- ===== src/Mcp.antt =====
-- crates/framewalk-mcp: the MCP server's own decisions.
pub mod RawGuard
pub mod Types
pub mod Tools
pub mod Target
pub mod Observe

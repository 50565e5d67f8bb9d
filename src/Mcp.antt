-- ===== src/Mcp.antt =====
-- The MCP server (mcp-rs).
pub mod Types
pub mod Protocol
pub mod Messages
pub mod Server
pub mod Answers
pub mod Results

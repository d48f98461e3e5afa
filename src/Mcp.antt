-- ===== src/Mcp.antt =====
-- The parts of src/mcp that keep state between tool calls.
pub mod SearchCache
